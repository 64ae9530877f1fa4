-- ===== src/Greylist/Message.antt =====
-- The handler `greylist` (src/greylist.c) over all recipients of a message.
use mopher.Prelude.{String, ◌≡◌, Bool, true, false, some}
use mopher.Prelude.Int.{ℤ, ◌+ℤ◌}
use mopher.Var.{Var, Vars, nil, cons, v_data, as_string}
use mopher.Exec.Post.{Post}
use mopher.Stage.{Stage}
use mopher.Dbt.{Key}
use mopher.Greylist.{Env, Tuple, Greylist, State, is_empty, has_waited}

module _ (env : Env) where
  open env use {Exp, dbt}

  -- The table holds a record that has done its waiting at this time, and that runs for its visa.
  pub record LetThrough (received : ℤ) (k : Key) (s : State env) : Type 0 where
    pub tuple : Tuple
    pub stored : dbt.get s.db k ≡ some (some tuple)
    pub waited : has_waited tuple received ≡ true
    pub expire : tuple.expire ≡ received +ℤ tuple.visa
    pub updated : tuple.updated ≡ received

  abbrev pub key : String → String → String → Key
  key origin envfrom envrcpt = record { origin = origin; envfrom = envfrom; envrcpt = envrcpt }

  -- Every recipient of the list is let through.
  abbrev pub AllLetThrough : ℤ → String → String → Vars → State env → Type 0
  AllLetThrough received origin envfrom nil s = Unit
  AllLetThrough received origin envfrom (cons rcpt rest) s =
      ((envrcpt : String) × (as_string (v_data rcpt) ≡ some envrcpt)
        × LetThrough received (key origin envfrom envrcpt) s)
      × AllLetThrough received origin envfrom rest s

  module _ (gl : Greylist Exp) (asks : is_empty gl ≡ false) (received : ℤ) where
    module _ (origin envfrom : String) where
      -- What the loop over the rest of the list leaves behind when it lets all of them through.
      abbrev LoopOutcome : Vars → State env → Bool × ℤ → State env → Type 0
      LoopOutcome rcpts s r s' =
          r.0 ≡ false
          → AllLetThrough received origin envfrom rcpts s'
            × ((j : Key) → LetThrough received j s → LetThrough received j s')
