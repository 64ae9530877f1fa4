-- ===== src/Milter/Lengths.antt =====
-- The lengths that a session of src/milter.c counts with its header and its body, and what a callback does
-- to them before the access list.
use Prim.Native.String.{len, ◌++◌ as append}
use text.Mathlib.TextPositions.{len-append}
use mopher.Prelude.{ℕ, ◌+◌, ◌≡◌, String, Bool, Option, none, some, arith}
use mopher.Prelude.Int.{ℤ, pos, ◌+ℤ◌}
use mopher.Milter.{MilterPriv}
use mopher.Milter.Callbacks.{
  Server, Preparation, text_or_empty, connection, sender, recipient, message_header, body_part,
  init_stage, mailbox, clean_address,
}

-- The lengths are those of the header and of the body, 0 where there is none.
abbrev pub Measured : MilterPriv → Type 0
Measured mp =
    (mp.mp_headerlen ≡ pos (len (text_or_empty mp.mp_header)))
    × (mp.mp_bodylen ≡ pos (len (text_or_empty mp.mp_body)))

abbrev pub Prepares : Preparation → Type 0
Prepares p = (mp : MilterPriv) → Measured mp → Measured (p mp).1

added : (m n : ℕ) → pos m +ℤ pos n ≡ pos (m + n)
unfolding ◌+ℤ◌
added m n = ground arith

-- `": "` and the end of the line have four bytes.
line_length :
    (t f v : String)
    → len (append t (append f (append ": " (append v "\r\n")))) ≡ len t + (len f + len v + 4)
line_length t f v = omega (
  arith,
  len-append t (append f (append ": " (append v "\r\n"))),
  len-append f (append ": " (append v "\r\n")),
  len-append ": " (append v "\r\n"),
  len-append v "\r\n",
)

header_added :
    (t f v : String) {n : ℤ}
    → n ≡ pos (len t)
    → n +ℤ pos (len f + len v + 4) ≡ pos (len (append t (append f (append ": " (append v "\r\n")))))
header_added t f v h = rw (h, line_length t f v) (added _ _)

-- A preparation that depends on a value that may be missing
abbrev chosen :
    {A : Type 0} → Option A → Bool × MilterPriv → (A → Bool × MilterPriv) → Bool × MilterPriv
chosen o n f = elim o [ none ↦ n | some x ↦ f x ]

chosen-Measured :
    {A : Type 0} (o : Option A) (n : Bool × MilterPriv) (f : A → Bool × MilterPriv)
    → Measured n.1
    → ((x : A) → Measured (f x).1)
    → Measured (chosen o n f).1
chosen-Measured none n f h k = h
chosen-Measured (some x) n f h k = k x

pub body_part-Prepares : (chunk : String) → Prepares (body_part chunk)
unfolding body_part
body_part-Prepares chunk mp (h, b) =
    (h, rw (b, len-append (text_or_empty mp.mp_body) chunk) (added _ _))

pub message_header-Prepares : (l : Server) (f v : String) → Prepares (message_header l f v)
unfolding message_header
message_header-Prepares l f v mp (h, b) = (header_added (text_or_empty mp.mp_header) f v h, b)

pub sender-Prepares : (l : Server) (arg : String) → Prepares (sender l arg)
unfolding sender
sender-Prepares l arg mp h = chosen-Measured (mailbox l arg) _ _ h (λ x. h)

pub connection-Prepares :
    (l : Server) (name : String) (a : Option ℕ) → Prepares (connection l name a)
unfolding connection
connection-Prepares l name a mp h = chosen-Measured (clean_address l a) _ _ h (λ (c, v6).
    chosen-Measured (l.util_addrtostr c) _ _ h
      (λ x. chosen-Measured (l.milter_origin name x) _ _ h (λ y. h)))

pub recipient-Prepares : (l : Server) (arg : String) → Prepares (recipient l arg)
unfolding recipient
recipient-Prepares l arg mp h = chosen-Measured (mailbox l arg) _ _ h (λ x. h)

pub init_stage-Prepares : (l : Server) → Prepares (init_stage l)
unfolding init_stage
init_stage-Prepares l mp h =
    chosen-Measured l.milter_get_id _ _ h (λ x. chosen-Measured l.time _ _ h (λ y. h))
