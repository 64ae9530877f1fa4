-- ===== src/Server/Tests.antt =====
-- A dump on its way, commands, and eleven connections.
use mopher.Prelude.{
  ℕ, suc, ◌+◌, ◌-◌, Bool, true, false, ◌≡◌, refl, Option, none, some, List, [], ◌∷◌, arith,
  if◌then◌else◌, ◌==◌, length,
}
use mopher.Prelude.Int.{ℤ, pos, negsuc, eqb_ℤ}
use mopher.Exec.{ok, fail, undefined}
use mopher.Base64.{codes}
use mopher.Server.{Bytes, server_output, server_data_cmd}
use mopher.Server.Transfer.{session, line, server_data_cmd-server_output, server_data_cmd-closed}
use mopher.Server.Commands.{Backend, tokens, server_exec_cmd, server_request}
use mopher.Server.Commands.Requests.{Passes, server_exec_cmd-Passes}
use mopher.Server.Commands.Answers.{Answered, server_exec_cmd-Answered}
use mopher.Server.Clients.{
  Slots, no_clients, server_round, close_clients, arrived, Reach, start, next, AllUsed,
  Reach-AllUsed,
}

-- Numbers below ten in decimal
abbrev decimal : ℕ → Bytes
decimal n = (48 + n) ∷ []

abbrev atoi : Bytes → Option ℤ
atoi (c ∷ n ∷ []) = if n == b'\n' then some (pos (c - 48)) else none
atoi bytes = none

abbrev can_write : List Bytes → Bool
can_write sent = true

-- Seven bytes arrive in two pieces.
server_data_cmd-server_output_example :
    (server_output can_write {B = ℕ} decimal
        (codes "a=1 b=2")
        (session (some (codes "OK") ∷ []) [] 0)
      ≡ (ok true, session [] (codes "a=1 b=2" ∷ line (codes "7") ∷ []) 0))
    × (server_data_cmd can_write {B = ℕ} 7 atoi (codes "greylist_dump") (
          session
            (some (line (codes "7"))
              ∷ some (codes "a=1")
              ∷ some (codes " b=2")
              ∷ some (codes "OK")
              ∷ [])
            []
            0)
        ≡ some (
          ok (some (codes "a=1 b=2")),
          session [] (codes "OK" ∷ line (codes "greylist_dump") ∷ []) 0,
        ))
server_data_cmd-server_output_example =
    server_data_cmd-server_output can_write (λ sent. refl) decimal (codes "a=1 b=2") (omega arith)
      atoi (codes "greylist_dump") refl (omega arith) refl (omega arith)
      (codes "a=1" ∷ codes " b=2" ∷ []) 7 [] [] [] [] 0 0 (codes " b=2", (refl, ([], (refl, refl))))
      (omega arith)

server_data_cmd-closed_example :
    server_data_cmd can_write {B = ℕ} 1000 atoi
      (codes "greylist_dump")
      (session (some (line (codes "7")) ∷ []) [] 0)
    ≡ none
server_data_cmd-closed_example =
    server_data_cmd-closed can_write (λ sent. refl) decimal (codes "a=1 b=2") (omega arith) atoi
      (codes "greylist_dump") refl (omega arith) refl (omega arith) 1000 [] 0 (omega arith)

-- A greylist that counts the calls
abbrev backend : Backend ℕ
backend = record {
  dbt_dump = λ table n. none;
  greylist_dump = λ n. some [];
  greylist_pass = λ source from rcpt n. (some false, suc n);
}

abbrev pass_command : Bytes
pass_command = codes "greylist_pass 10.0.0.1  a@b c@d"

server_exec_cmd-Passes_example :
    Passes can_write decimal backend
      (tokens pass_command)
      3
      (server_exec_cmd can_write decimal backend pass_command (session [] [] 3)).1.backend
server_exec_cmd-Passes_example =
    server_exec_cmd-Passes can_write decimal backend pass_command (session [] [] 3)

server_exec_cmd-Answered_example :
    Answered (server_exec_cmd can_write decimal backend pass_command (session [] [] 3))
server_exec_cmd-Answered_example =
    server_exec_cmd-Answered can_write decimal backend pass_command (session [] [] 3)

not_found :
    server_request can_write decimal backend (session (some (line pass_command) ∷ []) [] 3)
    ≡ (ok (pos 1), session [] (codes "OK" ∷ line (codes "Not found") ∷ []) 4)
unfolding server_request
not_found = refl

-- A client that closes the connection, and one that sends an empty line: the loop leaves the buffer.
closed :
    server_request can_write decimal backend (session [] [] 3) ≡ (fail undefined, session [] [] 3)
unfolding server_request
closed = refl

empty_line :
    server_request can_write decimal backend (session (some (line []) ∷ []) [] 3)
    ≡ (fail undefined, session [] [] 3)
unfolding server_request
empty_line = refl

no_request : ℤ → Option ℤ
no_request fd = none

-- A connection in each round
abbrev after_arrivals : List ℤ → Slots → Slots
unfolding server_round no_request
after_arrivals [] s = s
after_arrivals (fd ∷ fds) s =
    after_arrivals fds (server_round (record { connection = some fd; request = no_request }) s)

abbrev Waiting : List ℤ → Slots → Type 0
unfolding server_round no_request
Waiting [] s = Unit
Waiting (fd ∷ fds) s =
    (s.listening ≡ true)
    × (eqb_ℤ fd (pos 0) ≡ false)
    × Waiting fds (server_round (record { connection = some fd; request = no_request }) s)

arrivals-Reach : (fds : List ℤ) (s : Slots) → Reach s → Waiting fds s → Reach (after_arrivals fds s)
unfolding after_arrivals Waiting
arrivals-Reach [] s r w = r
arrivals-Reach (fd ∷ fds) s r (on, nz, w) =
    arrivals-Reach fds _ (next r (arrived fd no_request on nz)) w

abbrev eleven : List ℤ
eleven =
    pos 4 ∷ pos 5 ∷ pos 6 ∷ pos 7 ∷ pos 8 ∷ pos 9 ∷ pos 10 ∷ pos 11 ∷ pos 12 ∷ pos 13 ∷ pos 14 ∷ []

eleven-Waiting : Waiting eleven no_clients
unfolding Waiting
eleven-Waiting = ground arith

turned_off : (after_arrivals eleven no_clients).listening ≡ false
unfolding after_arrivals
turned_off = refl

Reach-AllUsed_example :
    AllUsed (after_arrivals eleven no_clients).server_clients
    × (length (after_arrivals eleven no_clients).server_clients ≡ 10)
Reach-AllUsed_example =
    Reach-AllUsed (after_arrivals eleven no_clients)
      (arrivals-Reach eleven no_clients start eleven-Waiting) turned_off

-- At the end a client behind a slot that is free keeps its socket.
left_open : close_clients (pos 4 ∷ negsuc 0 ∷ pos 6 ∷ []) ≡ pos 4 ∷ []
unfolding close_clients
left_open = refl
