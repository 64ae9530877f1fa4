-- ===== src/Server/Commands.antt =====
-- The commands of the control socket (src/server.c): one request of a client, from the text that is read to the
-- status that is sent. What the database and the greylist do for a command is a record of functions.
mod Quiet
pub mod Requests
pub mod Answers
use mopher.Prelude.{
  ℕ, zero, suc, Bool, true, false, not, ◌&&◌, Option, none, some, List, [], ◌∷◌, ◌++◌, length, ltb,
  leb, ◌==◌, if◌then◌else◌,
}
use mopher.Prelude.Int.{ℤ, pos, negsuc}
use mopher.Exec.{Exec, Result, ok, fail, undefined, uninitialized, pure, raise, ◌>>=◌, ◌>>◌}
use mopher.Base64.{codes}
use mopher.Server.{
  Bytes, Session, recv_buffer, reading, server_ok, server_reply, reply_as_format, server_output,
}

-- `dbt_dump` and `greylist_dump` return a text, and `none` is -1; `greylist_pass` returns -1, 0 or 1.
pub record Backend (B : Type 0) : Type 0 where
  pub dbt_dump : Bytes → B → Option Bytes
  pub greylist_dump : B → Option Bytes
  pub greylist_pass : Bytes → Bytes → Bytes → B → Option Bool × B

-- The functions of `server_functions`
pub data Function : Type 0 where
  table_dump greylist_dump greylist_pass help quit : Function

-- The table `server_functions`, with what `server_help` sends of it
abbrev pub server_functions : List (Bytes × Bytes × Function)
server_functions =
    (codes "table_dump", codes "Dump table", Function.table_dump)
    ∷ (codes "greylist_dump", codes "Dump greylist tuples", Function.greylist_dump)
    ∷ (codes "greylist_pass", codes "Let tuple pass greylistung", Function.greylist_pass)
    ∷ (codes "help", codes "Print this message", Function.help)
    ∷ (codes "quit", codes "close connection", Function.quit)
    ∷ []

unfoldable pub same_text : Bytes → Bytes → Bool
same_text [] [] = true
same_text [] (b ∷ bs) = false
same_text (a ∷ cs) [] = false
same_text (a ∷ cs) (b ∷ bs) = a == b && same_text cs bs

-- `sht_lookup`, and that of "help" where it fails
unfoldable pub function_of : List (Bytes × Bytes × Function) → Bytes → Function
unfolding same_text
function_of [] name = Function.help
function_of ((n, text, f) ∷ rest) name = if same_text n name then f else function_of rest name

-- The tokens of `strtok_r`, which are not empty, behind the characters of the one that is being read
abbrev pub end_token : Bytes → List Bytes → List Bytes
end_token [] rest = rest
end_token (c ∷ cs) rest = (c ∷ cs) ∷ rest

unfoldable pub tokens_from : Bytes → Bytes → List Bytes
tokens_from token [] = end_token token []
tokens_from token (c ∷ cs) =
    if c == b' ' then end_token token (tokens_from [] cs) else tokens_from (token ++ c ∷ []) cs

unfoldable pub tokens : Bytes → List Bytes
unfolding tokens_from
tokens cmd = tokens_from [] cmd

-- `cmd_buffer[len - 1]` is read where no byte is left.
unfoldable pub strip_newlines : Bytes → Option Bytes
strip_newlines [] = none
strip_newlines (c ∷ cs) = elim (strip_newlines cs) [
  | some text ↦ some (c ∷ text)
  | none ↦ if c == b'\n' then none else some (c ∷ [])
]

-- A text ends at its first zero byte.
abbrev pub up_to_zero : Bytes → Bytes
up_to_zero [] = []
up_to_zero (c ∷ cs) = let rest = up_to_zero cs in if c == 0 then [] else c ∷ rest

abbrev pub maxargs : ℕ
maxargs = 16

abbrev pub server_table_empty : Bytes
server_table_empty = codes "table is empty\n" ++ 0 ∷ []

-- `strncmp(argv[0], "help", 4)`
abbrev pub is_help : Bytes → Bool
is_help (h ∷ e ∷ l ∷ p ∷ rest) = same_text (h ∷ e ∷ l ∷ p ∷ []) (codes "help")
is_help cs = false

module _ (can_write : List Bytes → Bool) (decimal : ℕ → Bytes) {B : Type 0} (b : Backend B) where
  abbrev reply : Bytes → Exec (Session B) Bool
  reply message = server_reply can_write message

  -- A callback returns 0, -1 or 1.
  unfoldable pub send_functions : List (Bytes × Bytes × Function) → Exec (Session B) ℤ
  unfolding server_reply
  send_functions [] = pure (pos 1)
  send_functions ((n, text, f) ∷ rest) =
      reply_as_format can_write (n ++ b'\t' ∷ text) >>= λ sent. send_functions rest

  unfoldable pub server_help : Bytes → Exec (Session B) ℤ
  unfolding send_functions server_reply
  server_help name =
      (if is_help name then pure true else reply (codes "Unknown command")) >>= λ sent.
      reply (codes "HELP:") >>= λ sent. send_functions server_functions

  -- What the two dumps do with a text; the outcome of the text for an empty table is not looked at.
  unfoldable pub send_dump : Option Bytes → Exec (Session B) ℤ
  unfolding server_output
  send_dump none = pure (negsuc 0)
  send_dump (some []) = server_output can_write decimal server_table_empty >>= λ sent. pure (pos 1)
  send_dump (some (c ∷ cs)) =
      server_output can_write decimal (c ∷ cs) >>= λ sent. pure (if sent then pos 1 else negsuc 0)

  unfoldable pub server_table_dump : List Bytes → Exec (Session B) ℤ
  unfolding send_dump
  server_table_dump (name ∷ table ∷ []) s = send_dump (b.dbt_dump table s.backend) s
  server_table_dump argv s = (ok (negsuc 0), s)

  unfoldable pub server_greylist_dump : List Bytes → Exec (Session B) ℤ
  unfolding send_dump
  server_greylist_dump argv s = send_dump (b.greylist_dump s.backend) s

  abbrev pub passed : Option Bool → Exec (Session B) ℤ
  passed none = pure (negsuc 0)
  passed (some true) = pure (pos 1)
  passed (some false) = reply (codes "Not found") >>= λ sent. pure (pos 1)

  abbrev pub usage : List Bytes → Bytes
  usage [] = codes "Usage:  source from rcpt"
  usage (name ∷ argv) = codes "Usage: " ++ (name ++ codes " source from rcpt")

  unfoldable pub server_greylist_pass : List Bytes → Exec (Session B) ℤ
  unfolding server_reply
  server_greylist_pass (name ∷ source ∷ from ∷ rcpt ∷ []) s =
      let (r, backend) = b.greylist_pass source from rcpt s.backend in
      passed r (record s { backend = backend })
  server_greylist_pass argv s = (reply (usage argv) >>= λ sent. pure (negsuc 0)) s

  unfoldable pub server_callback : Function → Bytes → List Bytes → Exec (Session B) ℤ
  unfolding server_help server_table_dump server_greylist_dump server_greylist_pass
  server_callback Function.table_dump name argv = server_table_dump argv
  server_callback Function.greylist_dump name argv = server_greylist_dump argv
  server_callback Function.greylist_pass name argv = server_greylist_pass argv
  server_callback Function.help name argv = server_help name
  server_callback Function.quit name argv = pure (pos 0)

  -- The status of a command, after which its result is returned
  unfoldable pub send_status : ℤ → Exec (Session B) ℤ
  unfolding server_reply server_ok
  send_status (pos zero) = reply (codes "CLOSE") >>= λ sent. pure (pos 0)
  send_status (pos (suc n)) = server_ok can_write >>= λ sent. pure (pos (suc n))
  send_status (negsuc zero) = reply (codes "ERROR") >>= λ sent. pure (negsuc 0)
  send_status (negsuc (suc n)) = server_ok can_write >>= λ sent. pure (negsuc (suc n))

  -- A command of spaces alone has no `argv[0]`.
  unfoldable pub exec_argv : List Bytes → Exec (Session B) ℤ
  unfolding server_callback send_status function_of
  exec_argv [] = raise uninitialized
  exec_argv (name ∷ rest) =
      if leb maxargs (length (name ∷ rest))
      then (reply (codes "Too many arguments") >>= λ sent. pure (negsuc 0))
      else (server_callback (function_of server_functions name) name (name ∷ rest) >>= send_status)

  unfoldable pub server_exec_cmd : Bytes → Exec (Session B) ℤ
  unfolding exec_argv tokens
  server_exec_cmd cmd = exec_argv (tokens cmd)

  -- `none` is a command of which no byte but newlines is left: the loop reads in front of the buffer.
  abbrev pub exec_stripped : Option Bytes → Exec (Session B) ℤ
  exec_stripped none = raise undefined
  exec_stripped (some cmd) = server_exec_cmd (up_to_zero cmd)

  abbrev pub exec_read : Option Bytes → Exec (Session B) ℤ
  exec_read none = pure (negsuc 0)
  exec_read (some bytes) =
      if length bytes == recv_buffer then pure (negsuc 0) else exec_stripped (strip_newlines bytes)

  unfoldable pub server_request : Exec (Session B) ℤ
  unfolding server_exec_cmd strip_newlines
  server_request = reading recv_buffer >>= exec_read
