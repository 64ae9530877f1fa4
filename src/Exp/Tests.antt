-- ===== src/Exp/Tests.antt =====
-- Runs of expressions, and uses of the theorems on them.
use mopher.Prelude.{arith, ◌≡◌, refl, true, Option, none, some, List, [], ◌∷◌}
use mopher.Prelude.Int.{pos, negsuc, long_min, ◌*ℤ◌}
use mopher.Var.{Data, Var, Vars, nil, cons, var, int, list, table, var_true}
use mopher.Var.Cast.{VarType}
use mopher.Exec.{ok, fail, undefined}
use mopher.Exp.{
  Exp, constant, symbol, variable, macro, call, assign, and_op, or_op, operation, ternary, exp_list,
  item, end, add, le, div, mod_op, mul, gt, matches, exp_true, exp_false, exp_empty, exp_compare,
  exp_eval_in, exp_math_int,
}
use mopher.Exp.Symbols.{simple}
use mopher.Exp.Eval.{exp_eval, exp_eval_function}
use mopher.Exp.Logic.{truth, exp_eval-kleene_and, exp_eval-either}
use mopher.Exp.Compare.{
  exp_compare-relation, exp_compare-opposite, exp_eval_in-has, strings, is_le, negated,
}
use mopher.Exp.Numbers.{integer, Divided, exp_math_int-Divided}
use mopher.Exp.Pure.{is_pure, exp_eval-is_pure}
use mopher.Exp.Variables.{assign-variable, assign-other}
use mopher.Exp.Arguments.{types_of, exp_eval_function-types}
use mopher.Exp.Rules.{Settings, Handlers, Rules, with_exp, acl_env}
use mopher.Acl.{Rule, Action, Plain, plain, set, acl_rules}
use mopher.Acl.Sample.{refusing}
use mopher.Action.{acl_none, acl_accept, is_allowed}
use mopher.Stage.{connect}
use mopher.Exp.Sample.{registry, casts, stage_set, number, word, second}

-- A symbol is evaluated by its callback, and the mailspec keeps it.
abbrev recipients : Exp
recipients = symbol "recipients"

abbrev with_recipients : Vars
with_recipients = cons (var (some "recipients") (int (some (pos 2)))) stage_set

abbrev two : Var
two = var (some "recipients") (int (some (pos 2)))

recipients_value : exp_eval registry recipients stage_set ≡ (ok (some two), with_recipients)
unfolding exp_eval
recipients_value = refl

zero_value :
    exp_eval registry (constant (number 0)) with_recipients
    ≡ (ok (some (number 0)), with_recipients)
unfolding exp_eval
zero_value = refl

exp_eval-kleene_and_example :
    exp_eval registry (and_op recipients (constant (number 0))) stage_set
    ≡ (ok (some exp_false), with_recipients)
unfolding var_true
exp_eval-kleene_and_example =
    exp_eval-kleene_and registry recipients (constant (number 0)) stage_set recipients_value
      zero_value

either_sample :
    (v : Var) × (((exp_eval registry (or_op recipients (constant (number 0))) stage_set).0
        ≡ ok (some v))
      × (truth v ≡ some true))
unfolding var_true
either_sample =
    exp_eval-either registry recipients (constant (number 0)) stage_set recipients_value zero_value

-- A text matches the pattern in any case of letters.
matches_spam :
    exp_eval registry (operation matches (constant (word "Spam")) (constant (word "spam"))) nil
    ≡ (ok (some exp_true), nil)
unfolding exp_eval
matches_spam = refl

-- A macro that the mail server does not define is unknown, and one that it defines is a text.
macro_values : (exp_eval registry (macro "j") stage_set ≡ (ok (some exp_empty), stage_set))
unfolding exp_eval
macro_values = refl

compared :
    exp_compare casts le (some (number 3)) (some (var none (int (some (negsuc 4)))))
    ≡ ok (some exp_false)
compared = exp_compare-relation casts is_le none none (pos 3) (negsuc 4)

opposite_sample :
    exp_compare casts gt (some (word "a")) (some (word "b"))
    ≡ negated (exp_compare casts le (some (word "a")) (some (word "b")))
opposite_sample = exp_compare-opposite casts is_le (some (word "a")) (some (word "b"))

found_in_list :
    exp_eval_in casts (some (word "b")) (some (var none (list (strings ("a" ∷ "b" ∷ [])))))
    ≡ ok (some exp_true)
found_in_list = exp_eval_in-has casts none none "b" ("a" ∷ "b" ∷ [])

-- The product of two large numbers wraps around.
overflow : exp_math_int mul (some (pos 9223372036854775807)) (some (pos 2)) ≡ integer (negsuc 1)
unfolding exp_math_int ◌*ℤ◌
overflow = refl

-- The quotient of the least number by -1 is none.
least : exp_math_int mod_op (some long_min) (some (negsuc 0)) ≡ fail undefined
unfolding exp_math_int
least = refl

exp_math_int-Divided_example :
    Divided
      (negsuc 6)
      (pos 2)
      (exp_math_int div (some (negsuc 6)) (some (pos 2)))
      (exp_math_int mod_op (some (negsuc 6)) (some (pos 2)))
exp_math_int-Divided_example = exp_math_int-Divided (negsuc 6) (pos 2) (omega arith)

abbrev sum_and_call : Exp
sum_and_call =
    ternary (constant (number 1))
      (call "second" (
        exp_list (
          item (operation add (constant (number 1)) (constant (number 2)))
            (item (constant (number 5)) end))))
      (constant (number 0))

sum_and_call-is_pure : is_pure sum_and_call ≡ true
unfolding is_pure
sum_and_call-is_pure = refl

sum_and_call_keeps : (exp_eval registry sum_and_call stage_set).1 ≡ stage_set
sum_and_call_keeps = exp_eval-is_pure registry sum_and_call sum_and_call-is_pure stage_set

-- The variables after `$x = recipients`
abbrev variables : Vars
variables = cons (var (some "x") (int (some (pos 2)))) nil

abbrev with_variables : Vars
with_variables = cons (var (some "VARIABLES") (table variables)) with_recipients

assign_value :
    exp_eval registry (assign "$x" recipients) stage_set ≡ (ok (some two), with_variables)
unfolding exp_eval
assign_value = refl

assign-variable_example :
    exp_eval registry (variable "$x") with_variables
    ≡ (ok (some (var (some "x") (int (some (pos 2))))), with_variables)
assign-variable_example = assign-variable registry "$x" recipients stage_set assign_value

other_variable :
    (exp_eval registry (variable "$y") with_variables).0
    ≡ (exp_eval registry (variable "$y") (exp_eval registry recipients stage_set).1).0
other_variable = assign-other registry "$x" "$y" recipients stage_set assign_value refl

abbrev arguments : Vars
arguments = cons (number 1) (cons (number 5) nil)

second_value :
    exp_eval_function registry (simple (VarType.vt_int ∷ VarType.vt_string ∷ []) second) arguments
    ≡ some (word "n")
unfolding exp_eval_function
second_value = refl

exp_eval_function-types_example :
    (ds : List Data) × ((types_of ds ≡ VarType.vt_int ∷ VarType.vt_string ∷ [])
      × (second ds ≡ some (word "n")))
exp_eval_function-types_example =
    exp_eval_function-types registry (VarType.vt_int ∷ VarType.vt_string ∷ []) second arguments
      (word "n") second_value

abbrev settings : Settings
settings = record {
  cf_greylist_deadline = pos 86400;
  cf_greylist_visa = pos 604800;
  dbt = refusing;
}

abbrev handlers : Handlers (with_exp registry settings)
handlers = record {
  Other = Unit {0};
  cast_string = λ v. none;
  dump_fits = λ v. true;
  smfi_setreply = λ code xcode message. true;
  tarpit_action = λ stage e s. (acl_none, s);
  msgmod = λ stage x s. (acl_none, s);
  pipe_action = λ stage x s. (acl_none, s);
  acl_tables = λ name. none;
}

abbrev initial : Rules registry settings handlers
initial = record { inner = record { mailspec = stage_set; db = tt }; reply = none }

abbrev rule : Option Exp → Action Exp (Unit {0}) → Rule Exp (Unit {0})
rule condition x = record {
  expression = condition;
  action = x;
  reply = none;
  filename = "mopherd.acl";
  line = pos 1;
}

abbrev accepting : List (Rule Exp (Unit {0}))
accepting =
    rule (some (operation gt (variable "$x") (constant (number 1)))) (plain Plain.accept) ∷ []

-- The second rule reads the variable that the first one sets.
accepted :
    (acl_rules
      (acl_env registry settings handlers)
      (λ t s. (ok acl_none, s))
      connect
      1
      (rule none (set (assign "$x" recipients)) ∷ accepting)
      initial).0
    ≡ ok acl_accept
unfolding is_allowed acl_rules exp_eval exp_compare
accepted = refl
