-- ===== src/Server/Commands/Answers.antt =====
-- The status that ends an answer.
use mopher.Prelude.{
  ℕ, zero, suc, Bool, ◌≡◌, refl, ◌⊎◌, inl, inr, List, [], ◌∷◌, length, leb, Bool-cases,
}
use mopher.Prelude.Int.{ℤ, pos, negsuc}
use mopher.Exec.{Result, ok, fail, continue}
use mopher.Base64.{codes}
use mopher.Server.{Bytes, Session, server_ok, server_reply}
use mopher.Server.Commands.{
  Backend, server_functions, function_of, maxargs, tokens, server_callback, send_status, exec_argv,
  server_exec_cmd,
}

module _ {B : Type 0} where
  -- The last thing that was sent
  abbrev Ends : Bytes → Session B → Type 0
  Ends message s = (earlier : List Bytes) × (s.sent ≡ message ∷ earlier)

  -- A result of 0 comes with CLOSE, after which the connection is closed; -1 with ERROR or the complaint about
  -- the arguments; and any other with OK.
  abbrev pub Answered : Result ℤ × Session B → Type 0
  Answered (ok (pos zero), s) = Ends (codes "CLOSE\n") s
  Answered (ok (pos (suc n)), s) = Ends (codes "OK") s
  Answered (ok (negsuc zero), s) = Ends (codes "ERROR\n") s ⊎ Ends (codes "Too many arguments\n") s
  Answered (ok (negsuc (suc n)), s) = Ends (codes "OK") s
  Answered (fail e, s) = Unit

  module _ (can_write : List Bytes → Bool) (decimal : ℕ → Bytes) (b : Backend B) where
    status-Answered : (r : ℤ) (s : Session B) → Answered (send_status can_write decimal b r s)
    unfolding send_status server_reply server_ok
    status-Answered (pos zero) s = (s.sent, refl)
    status-Answered (pos (suc n)) s = (s.sent, refl)
    status-Answered (negsuc zero) s = inl (s.sent, refl)
    status-Answered (negsuc (suc n)) s = (s.sent, refl)

    continue-Answered :
        (r : Result ℤ) (s : Session B) → Answered (continue r (send_status can_write decimal b) s)
    continue-Answered (ok r) s = status-Answered r s
    continue-Answered (fail e) s = tt

    exec_argv-Answered :
        (argv : List Bytes) (s : Session B) → Answered (exec_argv can_write decimal b argv s)
    unfolding exec_argv server_reply
    exec_argv-Answered [] s = tt
    exec_argv-Answered (name ∷ argv) s = elim (Bool-cases (leb maxargs (length (name ∷ argv)))) [
      | inl many ↦ rw (Answered, many) (inr (s.sent, refl))
      | inr few ↦
          let f = function_of server_functions name in
          let (r, s') = server_callback can_write decimal b f name (name ∷ argv) s in
          rw (Answered, few) (continue-Answered r s')
    ]

    -- Of every command that returns, the last thing sent fits its result: CLOSE for 0, ERROR or the
    -- complaint about the number of arguments for -1, and OK for any other.
    pub server_exec_cmd-Answered :
        (cmd : Bytes) (s : Session B) → Answered (server_exec_cmd can_write decimal b cmd s)
    unfolding server_exec_cmd
    server_exec_cmd-Answered cmd s = exec_argv-Answered (tokens cmd) s
