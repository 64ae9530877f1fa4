-- ===== src/Server/Commands/Requests.antt =====
-- What a request changes.
use mopher.Prelude.{
  ℕ, Bool, true, false, ◌≡◌, ◌≢◌, refl, sym, ap, ◌∙◌, ◌⊎◌, inl, inr, List, [], ◌∷◌, length, drop,
  leb, arith, Bool-cases,
}
use mopher.Prelude.Int.{negsuc}
use mopher.Exec.{pure}
use mopher.Base64.{codes}
use mopher.Server.{Bytes, Session}
use mopher.Server.Commands.{
  Backend, Function, server_functions, same_text, function_of, maxargs, tokens,
  server_greylist_dump, server_greylist_pass, server_callback, send_status, exec_argv,
  server_exec_cmd,
}
use mopher.Server.Commands.Quiet.{
  continue-IsQuiet, then-IsQuiet, send_dump-IsQuiet, help-IsQuiet, table_dump-IsQuiet,
  status-IsQuiet, passed-IsQuiet, usage-IsQuiet,
}

same_text_sound : (a b : Bytes) → same_text a b ≡ true → a ≡ b
unfolding same_text
same_text_sound [] [] h = refl
same_text_sound [] (b ∷ bs) h = cc
same_text_sound (a ∷ cs) [] h = cc
same_text_sound (a ∷ cs) (b ∷ bs) h = ground (arith, same_text_sound cs bs)

-- A row of the table that has another function is not the one that was found.
function_of-skip :
    (n text : Bytes) (f g : Function) (rest : List (Bytes × Bytes × Function)) (name : Bytes)
    → f ≢ g
    → function_of ((n, text, f) ∷ rest) name ≡ g
    → function_of rest name ≡ g
unfolding function_of
function_of-skip n text f g rest name ne h = elim (Bool-cases (same_text n name)) [
  | inl e ↦ absurd (ne (ground (arith, e, h)))
  | inr e ↦ ground (arith, e, h)
]

function_of-miss :
    (n text : Bytes) (f : Function) (rest : List (Bytes × Bytes × Function)) (name : Bytes)
    → same_text n name ≡ false
    → function_of ((n, text, f) ∷ rest) name ≡ function_of rest name
unfolding function_of
function_of-miss n text f rest name h = rw h

help-ne_pass : Function.help ≢ Function.greylist_pass
help-ne_pass e = cc

only_help : (name : Bytes) → function_of [] name ≡ Function.help
unfolding function_of
only_help name = refl

function_of-pass :
    (name : Bytes)
    → function_of server_functions name ≡ Function.greylist_pass
    → codes "greylist_pass" ≡ name
function_of-pass name h =
    let second =
      function_of-skip (codes "table_dump") _ Function.table_dump Function.greylist_pass
        (drop 1 server_functions) name (λ e. cc) h in
    let third =
      function_of-skip (codes "greylist_dump") _ Function.greylist_dump Function.greylist_pass
        (drop 2 server_functions) name (λ e. cc) second in
    elim (Bool-cases (same_text (codes "greylist_pass") name)) [
      | inl e ↦ same_text_sound (codes "greylist_pass") name e
      | inr e ↦
          let fourth =
            sym (
              function_of-miss (codes "greylist_pass") _ Function.greylist_pass
                (drop 3 server_functions) name e)
            ∙ third in
          let fifth =
            function_of-skip (codes "help") _ Function.help Function.greylist_pass
              (drop 4 server_functions) name help-ne_pass fourth in
          let last =
            function_of-skip (codes "quit") _ Function.quit Function.greylist_pass [] name (λ e. cc)
              fifth in
          absurd (help-ne_pass (sym (only_help name) ∙ last))
    ]

module _ (can_write : List Bytes → Bool) (decimal : ℕ → Bytes) {B : Type 0} (b : Backend B) where
  -- The backend is as before, or the tokens are those of a call of `greylist_pass` that changed it.
  abbrev pub Passes : List Bytes → B → B → Type 0
  Passes argv before after =
      (after ≡ before)
      ⊎ ((source : Bytes) × ((from : Bytes) × ((rcpt : Bytes) × ((argv
                  ≡ codes "greylist_pass" ∷ source ∷ from ∷ rcpt ∷ [])
                × (after ≡ (b.greylist_pass source from rcpt before).1)))))

  pass-Passes :
      (name : Bytes) (argv : List Bytes) (s : Session B)
      → codes "greylist_pass" ≡ name
      → Passes
          (name ∷ argv)
          s.backend
          (server_greylist_pass can_write decimal b (name ∷ argv) s).1.backend
  unfolding server_greylist_pass
  pass-Passes name [] s e = inl (usage-IsQuiet can_write decimal b (name ∷ []) s)
  pass-Passes name (x ∷ []) s e = inl (usage-IsQuiet can_write decimal b (name ∷ x ∷ []) s)
  pass-Passes name (x ∷ y ∷ []) s e = inl (usage-IsQuiet can_write decimal b (name ∷ x ∷ y ∷ []) s)
  pass-Passes name (x ∷ y ∷ z ∷ []) s e =
      let (o, after) = b.greylist_pass x y z s.backend in
      inr (
        x,
        (
          y,
          (
            z,
            (
              ap (λ (n : Bytes). n ∷ x ∷ y ∷ z ∷ []) (sym e),
              passed-IsQuiet can_write decimal b o (record s { backend = after }),
            ),
          ),
        ),
      )
  pass-Passes name (x ∷ y ∷ z ∷ w ∷ rest) s e =
      inl (usage-IsQuiet can_write decimal b (name ∷ x ∷ y ∷ z ∷ w ∷ rest) s)

  callback-Passes :
      (f : Function) (name : Bytes) (argv : List Bytes) (s : Session B)
      → function_of server_functions name ≡ f
      → Passes
          (name ∷ argv)
          s.backend
          (server_callback can_write decimal b f name (name ∷ argv) s).1.backend
  unfolding server_callback server_greylist_dump
  callback-Passes Function.table_dump name argv s e =
      inl (table_dump-IsQuiet can_write decimal b (name ∷ argv) s)
  callback-Passes Function.greylist_dump name argv s e =
      inl (send_dump-IsQuiet can_write decimal b _ s)
  callback-Passes Function.greylist_pass name argv s e =
      pass-Passes name argv s (function_of-pass name e)
  callback-Passes Function.help name argv s e = inl (help-IsQuiet can_write decimal b name s)
  callback-Passes Function.quit name argv s e = inl refl

  exec_argv-Passes :
      (argv : List Bytes) (s : Session B)
      → Passes argv s.backend (exec_argv can_write decimal b argv s).1.backend
  unfolding exec_argv
  exec_argv-Passes [] s = inl refl
  exec_argv-Passes (name ∷ argv) s = elim (Bool-cases (leb maxargs (length (name ∷ argv)))) [
    | inl many ↦ rw many (
        inl (
          then-IsQuiet can_write decimal (codes "Too many arguments") (λ sent. pure (negsuc 0))
            (λ sent s. refl) s))
    | inr few ↦
        let f = function_of server_functions name in
        let (r, s') = server_callback can_write decimal b f name (name ∷ argv) s in
        let same =
          continue-IsQuiet r (send_status can_write decimal b) s'
            (status-IsQuiet can_write decimal b) in
        rw (few, same) (callback-Passes f name argv s refl)
  ]

  -- For every command, what the database and the greylist keep is as before, or the command consists
  -- of greylist_pass and three arguments and the change is that of greylist_pass for these three.
  pub server_exec_cmd-Passes :
      (cmd : Bytes) (s : Session B)
      → Passes (tokens cmd) s.backend (server_exec_cmd can_write decimal b cmd s).1.backend
  unfolding server_exec_cmd
  server_exec_cmd-Passes cmd s = exec_argv-Passes (tokens cmd) s
