-- ===== src/Exp/Logic.antt =====
-- `&&`, `||` and `!` (`exp_bool` and `exp_not` of src/exp.c) as operations on three truth values.
use native.Mathlib.Omega.{arith}
use mopher.Prelude.{◌≡◌, Bool, true, false, not, Option, none, some, if◌then◌else◌}
use mopher.Var.{Var, Vars, v_data, is_null, var_true}
use mopher.Exec.{ok}
use mopher.Exp.{Exp, and_op, or_op, not_op, exp_empty, exp_of, exp_not}
use mopher.Exp.Symbols.{Registry}
use mopher.Exp.Eval.{exp_eval, left_holds}

-- A value without data is unknown.
abbrev pub truth : Var → Option Bool
truth v = if is_null (v_data v) then none else some (var_true v)

abbrev pub of_truth : Option Bool → Var
of_truth none = exp_empty
of_truth (some b) = exp_of b

-- The conjunction and the negation of Kleene's logic
abbrev pub kleene_and : Option Bool → Option Bool → Option Bool
kleene_and (some false) b = some false
kleene_and a (some false) = some false
kleene_and (some true) b = b
kleene_and none b = none

abbrev pub kleene_not : Option Bool → Option Bool
kleene_not none = none
kleene_not (some b) = some (not b)

-- The truth value of `||`: the second one, unless the first is true
abbrev pub either : Option Bool → Option Bool → Option Bool
either (some true) b = some true
either a b = b

module _ (r : Registry) where
  -- If both operands of `&&` have values, its value is that of Kleene's conjunction, and the state is that
  -- after the first operand if that is known to be false, and that after the second one if not.
  pub exp_eval-kleene_and :
      (a b : Exp) (m : Vars) {x y : Var} {m₁ m₂ : Vars}
      → exp_eval r a m ≡ (ok (some x), m₁)
      → exp_eval r b m₁ ≡ (ok (some y), m₂)
      → exp_eval r (and_op a b) m ≡ (
        ok (some (of_truth (kleene_and (truth x) (truth y)))),
        elim (truth x) [ some false ↦ m₁ | _ ↦ m₂ ],
      )
  unfolding exp_eval
  exp_eval-kleene_and a b m {x} {y} h k = ground arith

  -- The value of `||` is the first operand if that is true, and the second one if not. Its truth value follows.
  pub exp_eval-either :
      (a b : Exp) (m : Vars) {x y : Var} {m₁ m₂ : Vars}
      → exp_eval r a m ≡ (ok (some x), m₁)
      → exp_eval r b m₁ ≡ (ok (some y), m₂)
      → (v : Var) × (((exp_eval r (or_op a b) m).0 ≡ ok (some v))
          × (truth v ≡ either (truth x) (truth y)))
  unfolding exp_eval
  exp_eval-either a b m {x} {y} h k = (if left_holds x then x else y, (ground arith, ground arith))

  -- `!` is the negation of the truth values, and keeps the state of its operand.
  pub exp_eval-kleene_not :
      (a : Exp) (m : Vars) {x : Var} {m₁ : Vars}
      → exp_eval r a m ≡ (ok (some x), m₁)
      → exp_eval r (not_op a) m ≡ (ok (some (of_truth (kleene_not (truth x)))), m₁)
  unfolding exp_eval exp_not
  exp_eval-kleene_not a m {x} h = ground arith
