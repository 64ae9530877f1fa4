-- ===== src/Exec.antt =====
-- Functions that change a state and may fail. A failure keeps the state that it was met in, and says
-- what happened: the function returned its error value, or it went on where C has no defined
-- behaviour (it read through a null pointer, or a variable that was never assigned; `undefined` is
-- any other such operation, a division by zero or a sum that leaves its type), or it ended the process
-- (`exit`, by `log_die`).
pub mod Post
use mopher.Prelude.{Option, none, some}

pub data Fault : Type 0 where
  error null_pointer uninitialized undefined exit : Fault

pub data Result (A : Type 0) : Type 0 where
  ok : A → Result A
  fail : Fault → Result A

abbrev pub Exec : Type 0 → Type 0 → Type 0
Exec S A = S → Result A × S

module _ {S : Type 0} where
  abbrev pub pure : {A : Type 0} → A → Exec S A
  pure a s = (ok a, s)

  abbrev pub raise : {A : Type 0} → Fault → Exec S A
  raise e s = (fail e, s)

  abbrev pub gets : {A : Type 0} → (S → A) → Exec S A
  gets f s = (ok (f s), s)

  abbrev pub put : S → Exec S (Unit {0})
  put s' s = (ok tt, s')

  -- A pointer that must not be NULL.
  abbrev pub deref : {A : Type 0} → Option A → Exec S A
  deref (some a) s = (ok a, s)
  deref none s = (fail null_pointer, s)

module _ {S A B : Type 0} where
  abbrev pub continue : Result A → (A → Exec S B) → Exec S B
  continue (ok a) f s = f a s
  continue (fail e) f s = (fail e, s)

  infixl 10 ◌>>=◌ ◌>>◌
  abbrev pub ◌>>=◌ : Exec S A → (A → Exec S B) → Exec S B
  ◌>>=◌ m f s = let (r, s') = m s in continue r f s'

  abbrev pub ◌>>◌ : Exec S A → Exec S B → Exec S B
  m >> n = m >>= λ _. n
