-- ===== src/Server.antt =====
-- The protocol of the control socket (src/server.c), for the server and for its client: replies, checks, data
-- with its size in front, and commands. What the other end sends is a list with an element for each piece that
-- arrives, `none` where the call fails; behind the list the other end has closed the connection. What is
-- written is collected, the last one first, with whether it succeeds as a parameter; a write is taken to be
-- whole. A text is the list of its bytes before the zero byte.
pub mod Transfer
pub mod Commands
pub mod Clients
mod Tests
use mopher.Prelude.{
  ℕ, zero, suc, ◌-◌, Bool, true, false, ◌&&◌, ◌||◌, Option, none, some, List, [], ◌∷◌, ◌++◌, length,
  take, drop, ltb, leb, ◌==◌, if◌then◌else◌,
}
use mopher.Prelude.Int.{ℤ, pos, negsuc}
use mopher.Exec.{Exec, Result, ok, fail, undefined, uninitialized, pure, raise, ◌>>=◌}
use mopher.Base64.{codes}

abbrev pub Bytes : Type 0
Bytes = List ℕ

-- A connection, with what else the process keeps
pub record Session (B : Type 0) : Type 0 where
  pub incoming : List (Option Bytes)
  pub sent : List Bytes
  pub backend : B

abbrev pub recv_buffer : ℕ
recv_buffer = 4096

abbrev pub max_buffer : ℕ
max_buffer = 10000000

abbrev pub put_back : Bytes → List (Option Bytes) → List (Option Bytes)
put_back [] rest = rest
put_back (b ∷ bs) rest = some (b ∷ bs) ∷ rest

abbrev pub has_percent : Bytes → Bool
has_percent [] = false
has_percent (c ∷ cs) = c == b'%' || has_percent cs

module _ {B : Type 0} where
  -- `read` takes at most `n` bytes of a piece; `none` is -1, and no bytes are the end.
  abbrev pub read_from : ℕ → Session B → List (Option Bytes) → Option Bytes × Session B
  read_from n s [] = (some [], s)
  read_from n s (none ∷ rest) = (none, record s { incoming = rest })
  read_from n s (some bytes ∷ rest) =
      (some (take n bytes), record s { incoming = put_back (drop n bytes) rest })

  abbrev pub read : ℕ → Session B → Option Bytes × Session B
  read n s = read_from n s s.incoming

  abbrev pub reading : ℕ → Exec (Session B) (Option Bytes)
  reading n s = let (r, s') = read n s in (ok r, s')

  -- The two bytes of the buffer are compared, also where fewer were read.
  abbrev pub is_ok : Option Bytes → Exec (Session B) Bool
  is_ok none = pure false
  is_ok (some (o ∷ k ∷ [])) = pure (o == b'O' && k == b'K')
  is_ok (some bytes) = raise uninitialized

  unfoldable pub server_check : Exec (Session B) Bool
  server_check = reading 2 >>= is_ok

  abbrev pub and_then : Exec (Session B) Bool → Bool → Exec (Session B) Bool
  and_then m true = m
  and_then m false = pure false

  -- The loop, on fuel for its reads; the outer `none` is no fuel, and the inner one -1.
  unfoldable pub receive : ℕ → ℕ → Bytes → Session B → Option (Option Bytes × Session B)
  receive fuel zero buffer s = some (some buffer, s)
  receive zero (suc missing) buffer s = none
  receive (suc fuel) (suc missing) buffer s =
      let (r, s') = read (suc missing) s in
      elim r [
        | none ↦ some (none, s')
        | some bytes ↦ receive fuel (suc missing - length bytes) (buffer ++ bytes) s'
      ]

  -- `atoi` reads on behind the bytes that were read, where its number does not end before.
  abbrev pub size_of : (Bytes → Option ℤ) → Option Bytes → Exec (Session B) (Option ℕ)
  size_of atoi none = pure none
  size_of atoi (some recv) = elim (atoi recv) [
    | none ↦ raise uninitialized
    | some (negsuc n) ↦ pure none
    | some (pos n) ↦ if ltb max_buffer n then pure none else pure (some n)
  ]

module _ (can_write : List Bytes → Bool) {B : Type 0} where
  abbrev pub write : Bytes → Exec (Session B) Bool
  write bytes s = (ok (can_write s.sent), record s { sent = bytes ∷ s.sent })

  unfoldable pub server_ok : Exec (Session B) Bool
  server_ok = write (codes "OK")

  -- A message as it is formatted; `false` is -1.
  unfoldable pub server_reply : Bytes → Exec (Session B) Bool
  server_reply message s =
      if leb (recv_buffer - 1) (length message)
      then (ok false, s)
      else write (message ++ b'\n' ∷ []) s

  unfoldable pub server_output : (ℕ → Bytes) → Bytes → Exec (Session B) Bool
  unfolding server_reply server_check
  server_output decimal buffer =
      server_reply (decimal (length buffer)) >>= and_then (server_check >>= and_then (write buffer))

  -- The command is the format of the reply.
  abbrev pub reply_as_format : Bytes → Exec (Session B) Bool
  reply_as_format cmd = if has_percent cmd then raise undefined else server_reply cmd

  unfoldable pub server_cmd : Bytes → Exec (Session B) Bool
  unfolding server_reply server_check
  server_cmd cmd = reply_as_format cmd >>= and_then server_check

  abbrev pub announce : Option ℕ → Exec (Session B) (Option ℕ)
  announce none = pure none
  announce (some size) = server_ok >>= λ done. pure (if done then some size else none)

  abbrev pub header : (Bytes → Option ℤ) → Bool → Exec (Session B) (Option ℕ)
  header atoi false = pure none
  header atoi true = reading recv_buffer >>= size_of atoi >>= announce

  -- What precedes the loop of `server_data_cmd`: the size of the data, or -1
  unfoldable pub data_size : (Bytes → Option ℤ) → Bytes → Exec (Session B) (Option ℕ)
  unfolding server_reply server_ok
  data_size atoi cmd = reply_as_format cmd >>= header atoi

  abbrev pub checked :
      Option (Option Bytes × Session B) → Option (Result (Option Bytes) × Session B)
  checked none = none
  checked (some (none, s)) = some (ok none, s)
  checked (some (some buffer, s)) =
      some ((server_check >>= λ good. pure (if good then some buffer else none)) s)

  abbrev pub receive_all :
      ℕ → Result (Option ℕ) × Session B → Option (Result (Option Bytes) × Session B)
  receive_all fuel (fail e, s) = some (fail e, s)
  receive_all fuel (ok none, s) = some (ok none, s)
  receive_all fuel (ok (some size), s) = checked (receive fuel size [] s)

  -- The data that the server sends for the command; `none` in a result is -1.
  unfoldable pub server_data_cmd :
      ℕ → (Bytes → Option ℤ) → Bytes → Session B → Option (Result (Option Bytes) × Session B)
  unfolding data_size receive server_check
  server_data_cmd fuel atoi cmd s = receive_all fuel (data_size atoi cmd s)
