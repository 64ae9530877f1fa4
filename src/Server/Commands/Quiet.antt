-- ===== src/Server/Commands/Quiet.antt =====
-- The commands that leave alone what the server keeps.
use mopher.Prelude.{
  ℕ, zero, suc, Bool, true, false, ◌≡◌, refl, ◌∙◌, inl, inr, Option, none, some, List, [], ◌∷◌,
  ◌++◌, length, if◌then◌else◌, arith, Bool-cases,
}
use mopher.Prelude.Int.{ℤ, pos, negsuc}
use mopher.Exec.{Exec, Result, ok, fail, pure, ◌>>=◌, continue}
use mopher.Base64.{codes}
use mopher.Server.{
  Bytes, Session, has_percent, read_from, reading, is_ok, and_then, server_check, server_ok,
  server_reply, reply_as_format, server_output, write,
}
use mopher.Server.Commands.{
  Backend, Function, server_functions, server_table_empty, is_help, passed, usage, send_functions,
  server_help, send_dump, server_table_dump, send_status,
}

module _ {B A : Type 0} where
  -- The backend stays as it is.
  abbrev pub IsQuiet : Exec (Session B) A → Type 0
  IsQuiet m = (s : Session B) → (m s).1.backend ≡ s.backend

module _ {B A C : Type 0} where
  pub continue-IsQuiet :
      (r : Result A) (f : A → Exec (Session B) C) (s : Session B)
      → ((a : A) → IsQuiet (f a))
      → (continue r f s).1.backend ≡ s.backend
  continue-IsQuiet (ok a) f s h = h a s
  continue-IsQuiet (fail e) f s h = refl

  bind-IsQuiet :
      (m : Exec (Session B) A) (f : A → Exec (Session B) C)
      → IsQuiet m
      → ((a : A) → IsQuiet (f a))
      → IsQuiet (m >>= f)
  bind-IsQuiet m f h k s = continue-IsQuiet (m s).0 f (m s).1 k ∙ h s

module _ (can_write : List Bytes → Bool) (decimal : ℕ → Bytes) {B : Type 0} where
  reply-IsQuiet : (message : Bytes) → IsQuiet {B = B} (server_reply can_write message)
  unfolding server_reply
  reply-IsQuiet message s = ground arith

  pub then-IsQuiet :
      {A : Type 0} (message : Bytes) (f : Bool → Exec (Session B) A)
      → ((sent : Bool) → IsQuiet (f sent))
      → IsQuiet (server_reply can_write message >>= f)
  then-IsQuiet message f h =
      bind-IsQuiet (server_reply can_write message) f (reply-IsQuiet message) h

  read_from-backend :
      (n : ℕ) (s : Session B) (incoming : List (Option Bytes))
      → (read_from n s incoming).1.backend ≡ s.backend
  read_from-backend n s [] = refl
  read_from-backend n s (none ∷ rest) = refl
  read_from-backend n s (some bytes ∷ rest) = refl

  is_ok-IsQuiet : (r : Option Bytes) → IsQuiet {B = B} (is_ok r)
  is_ok-IsQuiet none s = refl
  is_ok-IsQuiet (some []) s = refl
  is_ok-IsQuiet (some (o ∷ [])) s = refl
  is_ok-IsQuiet (some (o ∷ k ∷ [])) s = refl
  is_ok-IsQuiet (some (o ∷ k ∷ l ∷ rest)) s = refl

  check-IsQuiet : IsQuiet {B = B} server_check
  unfolding server_check
  check-IsQuiet =
      bind-IsQuiet (reading 2) is_ok (λ s. read_from-backend 2 s s.incoming) is_ok-IsQuiet

  and_then-IsQuiet : (m : Exec (Session B) Bool) → IsQuiet m → (b : Bool) → IsQuiet (and_then m b)
  and_then-IsQuiet m h true = h
  and_then-IsQuiet m h false = λ s. refl

  output-IsQuiet : (buffer : Bytes) → IsQuiet {B = B} (server_output can_write decimal buffer)
  unfolding server_output
  output-IsQuiet buffer =
      let sending : Exec (Session B) Bool = write can_write buffer in
      let checking = server_check >>= and_then sending in
      bind-IsQuiet (server_reply can_write (decimal (length buffer))) (and_then checking)
        (reply-IsQuiet (decimal (length buffer)))
        (and_then-IsQuiet checking (
          bind-IsQuiet server_check (and_then sending) check-IsQuiet
            (and_then-IsQuiet sending (λ s. refl))))

  pub send_dump-IsQuiet :
      (b : Backend B) (o : Option Bytes) → IsQuiet (send_dump can_write decimal b o)
  unfolding send_dump
  send_dump-IsQuiet b none = λ s. refl
  send_dump-IsQuiet b (some []) =
      bind-IsQuiet (server_output can_write decimal server_table_empty) (λ sent. pure (pos 1))
        (output-IsQuiet server_table_empty) (λ sent s. refl)
  send_dump-IsQuiet b (some (c ∷ cs)) =
      bind-IsQuiet (server_output can_write decimal (c ∷ cs))
        (λ sent. pure (if sent then pos 1 else negsuc 0)) (output-IsQuiet (c ∷ cs)) (λ sent s. refl)

  as_format-IsQuiet : (cmd : Bytes) → IsQuiet {B = B} (reply_as_format can_write cmd)
  as_format-IsQuiet cmd s = elim (Bool-cases (has_percent cmd)) [
    | inl e ↦ rw e
    | inr e ↦ rw e (reply-IsQuiet cmd s)
  ]

  module _ (b : Backend B) where
    send_functions-IsQuiet :
        (fs : List (Bytes × Bytes × Function)) → IsQuiet (send_functions can_write decimal b fs)
    unfolding send_functions
    send_functions-IsQuiet [] = λ s. refl
    send_functions-IsQuiet ((n, text, f) ∷ fs) =
        let row = n ++ b'\t' ∷ text in
        bind-IsQuiet (reply_as_format can_write row) (λ sent. send_functions can_write decimal b fs)
          (as_format-IsQuiet row) (λ sent. send_functions-IsQuiet fs)

    pub help-IsQuiet : (name : Bytes) → IsQuiet (server_help can_write decimal b name)
    unfolding server_help
    help-IsQuiet name =
        let heading : Exec (Session B) ℤ = server_reply can_write (codes "HELP:") >>= λ sent.
        send_functions can_write decimal b server_functions in
        let after_heading =
          then-IsQuiet (codes "HELP:") (λ sent. send_functions can_write decimal b server_functions)
            (λ sent. send_functions-IsQuiet server_functions) in
        elim (Bool-cases (is_help name)) [
          | inl e ↦ rw e after_heading
          | inr e ↦
              rw e
                (then-IsQuiet (codes "Unknown command") (λ sent. heading) (λ sent. after_heading))
        ]

    pub table_dump-IsQuiet :
        (argv : List Bytes) → IsQuiet (server_table_dump can_write decimal b argv)
    unfolding server_table_dump
    table_dump-IsQuiet [] s = refl
    table_dump-IsQuiet (a ∷ []) s = refl
    table_dump-IsQuiet (a ∷ t ∷ []) s = send_dump-IsQuiet b _ s
    table_dump-IsQuiet (a ∷ t ∷ u ∷ rest) s = refl

    pub status-IsQuiet : (r : ℤ) → IsQuiet (send_status can_write decimal b r)
    unfolding send_status server_ok
    status-IsQuiet (pos zero) = then-IsQuiet (codes "CLOSE") (λ sent. pure (pos 0)) (λ sent s. refl)
    status-IsQuiet (pos (suc n)) = λ s. refl
    status-IsQuiet (negsuc zero) =
        then-IsQuiet (codes "ERROR") (λ sent. pure (negsuc 0)) (λ sent s. refl)
    status-IsQuiet (negsuc (suc n)) = λ s. refl

    pub passed-IsQuiet : (o : Option Bool) → IsQuiet (passed can_write decimal b o)
    passed-IsQuiet none = λ s. refl
    passed-IsQuiet (some true) = λ s. refl
    passed-IsQuiet (some false) =
        then-IsQuiet (codes "Not found") (λ sent. pure (pos 1)) (λ sent s. refl)

    pub usage-IsQuiet :
        (argv : List Bytes) (s : Session B)
        → ((server_reply can_write (usage can_write decimal b argv) >>= λ sent. pure (negsuc 0))
            s).1.backend
          ≡ s.backend
    usage-IsQuiet argv =
        then-IsQuiet (usage can_write decimal b argv) (λ sent. pure (negsuc 0)) (λ sent s. refl)
