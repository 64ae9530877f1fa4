-- ===== src/Exp/Eval.antt =====
-- The evaluation of expressions (src/exp.c) on the registry of Exp/Symbols.antt.

use mopher.Prelude.{
  String, Bool, true, false, not, Option, none, some, List, [], ◌∷◌, if◌then◌else◌,
}
use mopher.Exec.{Exec, ok, fail, null_pointer, undefined, pure, raise, ◌>>=◌}
use mopher.Var.{
  Data, Var, Vars, list, addr, int, float, string, var, nil, cons, v_data, is_null, var_true,
}
use mopher.Var.Cast.{VarType, v_type, same_type, var_max_type, var_cast_copy}
use mopher.Vtable.{vtable_lookup, vtable_get}
use mopher.Exp.{
  Operator, lt, gt, le, ge, eq, ne, matches, nr, in_list, div, Exp, Exps, parentheses, constant,
  exp_list, symbol, variable, macro, call_empty, call, assign, is_set, not_op, is_null_op, and_op,
  or_op, operation, ternary, end, item, exp_empty, exp_true, exp_false, exp_of, Value, exp_compare,
  exp_math_int, exp_math_float, exp_math_string, exp_is_null, exp_not, exp_eval_regex, exp_eval_in,
}
use mopher.Exp.Symbols.{
  AclFunction, simple, complex, Registry, Eval, lift, acl_variable_assign, acl_variable_get,
  acl_symbol_get, milter_macro_lookup,
}

unfoldable pub exp_eval_variable : String → Eval
unfolding acl_variable_get
exp_eval_variable name = do
  v ← acl_variable_get name
  elim v [ none ↦ pure (some exp_empty) | some x ↦ pure (some x) ]

abbrev isset_value : Exp → Vars → Option Var
isset_value (symbol name) m =
    some (elim (vtable_lookup m name) [ none ↦ exp_false | some v ↦ exp_true ])
isset_value e m = none

unfoldable pub exp_isset : Exp → Eval
unfolding vtable_lookup
exp_isset e m = (ok (isset_value e m), m)

-- The two steps of `exp_bool` that follow an operand
abbrev pub and_right : Bool → Option Var → Eval
and_right left_known none = pure none
and_right left_known (some right) =
    if is_null (v_data right)
    then pure (some exp_empty)
    else if left_known
    then pure (some (exp_of (var_true right)))
    else if var_true right
    then pure (some exp_empty)
    else pure (some exp_false)

-- A list without a value at one place is read only up to it, by every reader of lists: it has no value here.
abbrev pub append_to : Option Var → Vars → Exec Vars Vars
append_to none vs = raise undefined
append_to (some v) vs = pure (cons v vs)

abbrev pub left_holds : Var → Bool
left_holds v = if is_null (v_data v) then false else var_true v

abbrev pub left_fails : Var → Bool
left_fails v = if is_null (v_data v) then false else not (var_true v)

-- `ll` has as many items as the function has types.
abbrev pub argc : Vars → List VarType → Bool
argc nil [] = true
argc nil (t ∷ ts) = false
argc (cons v vs) [] = false
argc (cons v vs) (t ∷ ts) = argc vs ts

module _ (r : Registry) where
  open r use {operators, acl_functions}

  unfoldable pub exp_eval_macro : String → Eval
  unfolding milter_macro_lookup vtable_get
  exp_eval_macro name m = elim (vtable_get m "stage") [
    | none ↦ (ok none, m)
    | some d ↦
        (do
          value ← milter_macro_lookup r name
          elim value [
            | none ↦ pure (some exp_empty)
            | some s ↦ pure (some (var (some name) (string (some s))))
          ])
          m
  ]

  -- The loop of `exp_eval_function_simple` over the arguments: a cast that fails ends it.
  unfoldable pub prepare_argv : List VarType → Vars → Option (List Data)
  unfolding var_cast_copy
  prepare_argv types nil = some []
  prepare_argv [] (cons v vs) = none
  prepare_argv (t ∷ ts) (cons v vs) =
      let rest = prepare_argv ts vs in
      elim (if same_type t (v_type (v_data v)) then some v else var_cast_copy operators.casts t v) [
        | none ↦ none
        | some u ↦ elim rest [ none ↦ none | some ds ↦ some (v_data u ∷ ds) ]
      ]

  unfoldable pub exp_eval_function : AclFunction → Vars → Option Var
  unfolding prepare_argv
  exp_eval_function (simple types callback) args =
      if argc args types
      then elim (prepare_argv types args) [ none ↦ none | some ds ↦ callback ds ]
      else none
  exp_eval_function (complex callback) args = callback args

  -- A value that is no list is a list of one.
  abbrev pub argument_list : Var → Vars
  argument_list v = elim (v_data v) [ list xs ↦ xs | _ ↦ cons v nil ]

  -- The casts of `exp_eval_operation` before the operators on numbers and texts
  abbrev pub common_type : Var → Var → Option (Var × Var)
  common_type l r =
      let type = var_max_type (v_data l) (v_data r) in
      if same_type (v_type (v_data l)) (v_type (v_data r))
      then some (l, r)
      else if same_type type (v_type (v_data l))
      then (elim (var_cast_copy operators.casts type r) [ none ↦ none | some u ↦ some (l, u) ])
      else (elim (var_cast_copy operators.casts type l) [ none ↦ none | some u ↦ some (u, r) ])

  unfoldable pub exp_math : Operator → Data → Data → Value
  unfolding exp_math_int exp_math_float exp_math_string
  exp_math op (int l) (int r) = exp_math_int op l r
  exp_math op (float l) (float r) = exp_math_float operators op l r
  exp_math op (string l) (string r) = exp_math_string op l r
  exp_math op l r = ok none

  -- `exp_addr_prefix` is asked for an address and a number.
  abbrev pub is_prefix : Operator → Data → Data → Bool
  is_prefix div (addr a) (int n) = true
  is_prefix op l r = false

  -- The source shortens the left operand where it stands. The value is that operand; that the place it was
  -- read from, if there is one, changes with it is not modelled.
  abbrev pub addr_prefix : Var → Data → Value
  addr_prefix (var name (addr (some a))) (int (some n)) =
      ok (some (var name (addr (some (operators.util_addr_prefix a n)))))
  addr_prefix l r = fail null_pointer

  abbrev pub math_operation : Operator → Option Var → Option Var → Value
  math_operation op none right = ok (some exp_empty)
  math_operation op (some l) none = ok (some exp_empty)
  math_operation op (some l) (some r) =
      if is_prefix op (v_data l) (v_data r)
      then addr_prefix l (v_data r)
      else elim (common_type l r) [
        | none ↦ ok none
        | some (x, y) ↦ exp_math op (v_data x) (v_data y)
      ]

  -- The `switch` of `exp_eval_operation`, after both operands
  unfoldable pub exp_binary : Operator → Option Var → Option Var → Value
  unfolding exp_compare exp_eval_regex exp_eval_in exp_math var_cast_copy
  exp_binary lt l r = exp_compare operators.casts lt l r
  exp_binary gt l r = exp_compare operators.casts gt l r
  exp_binary le l r = exp_compare operators.casts le l r
  exp_binary ge l r = exp_compare operators.casts ge l r
  exp_binary eq l r = exp_compare operators.casts eq l r
  exp_binary ne l r = exp_compare operators.casts ne l r
  exp_binary matches l r = exp_eval_regex operators matches l r
  exp_binary nr l r = exp_eval_regex operators nr l r
  exp_binary in_list l r = exp_eval_in operators.casts l r
  exp_binary op l r = math_operation op l r

  -- `exp_bool` of `&&`, where the operands are evaluated by `left` and `right`
  abbrev pub exp_and : Eval → Eval → Eval
  exp_and left right = do
    l ← left
    elim l [
      | none ↦ pure none
      | some v ↦
          if left_fails v
          then pure (some exp_false)
          else do r ← right; and_right (not (is_null (v_data v))) r
    ]

  -- `exp_bool` of `||`: what follows the early return of the right operand is never reached.
  abbrev pub exp_or : Eval → Eval → Eval
  exp_or left right = do
    l ← left
    elim l [ none ↦ pure none | some v ↦ if left_holds v then pure (some v) else right ]

  abbrev pub exp_assign : String → Eval → Eval
  exp_assign name right = do
    value ← right
    elim value [
      | none ↦ pure none
      | some v ↦ do done ← acl_variable_assign name v; pure (if done then some v else none)
    ]

  abbrev pub exp_eval_ternary_condition : Eval → Eval → Eval → Eval
  exp_eval_ternary_condition condition if_true if_false = do
    c ← condition
    elim c [ none ↦ pure none | some v ↦ if var_true v then if_true else if_false ]

  -- The lookup of the function comes before the evaluation of its arguments.
  abbrev pub call_function : String → Eval → Eval
  call_function name arguments = elim (acl_functions name) [
    | none ↦ pure none
    | some af ↦ do
      args ← arguments
      elim args [ none ↦ pure none | some v ↦ pure (exp_eval_function af (argument_list v)) ]
  ]

  abbrev pub call_without : String → Eval
  call_without name = elim (acl_functions name) [
    | none ↦ pure none
    | some af ↦ pure (exp_eval_function af nil)
  ]

  -- An operator of two operands: both are evaluated, also where the first has no value.
  abbrev pub exp_eval_operation : Operator → Eval → Eval → Eval
  exp_eval_operation op left right = do l ← left; r ← right; lift (exp_binary op l r)

  unfoldable mutual
    unfolding acl_symbol_get exp_eval_macro exp_eval_variable acl_variable_assign exp_isset
        exp_eval_function exp_binary exp_not exp_is_null var_true

    pub exp_eval : Exp → Eval
    exp_eval (parentheses e) = exp_eval e
    exp_eval (constant v) = pure (some v)
    exp_eval (exp_list es) = do vs ← exp_eval_list es; pure (some (var none (list vs)))
    exp_eval (symbol name) = acl_symbol_get r name
    exp_eval (variable name) = exp_eval_variable name
    exp_eval (macro name) = exp_eval_macro name
    exp_eval (call_empty name) = call_without name
    exp_eval (call name e) = call_function name (exp_eval e)
    exp_eval (assign name e) = exp_assign name (exp_eval e)
    exp_eval (is_set e) = exp_isset e
    exp_eval (not_op e) = do left ← exp_eval e; pure (some (exp_not left))
    exp_eval (is_null_op e) = do left ← exp_eval e; pure (some (exp_is_null left))
    exp_eval (and_op l r) = exp_and (exp_eval l) (exp_eval r)
    exp_eval (or_op l r) = exp_or (exp_eval l) (exp_eval r)
    exp_eval (operation op l r) = exp_eval_operation op (exp_eval l) (exp_eval r)
    exp_eval (ternary c l r) = exp_eval_ternary_condition (exp_eval c) (exp_eval l) (exp_eval r)

    pub exp_eval_list : Exps → Exec Vars Vars
    exp_eval_list end = pure nil
    exp_eval_list (item e es) = do v ← exp_eval e; vs ← exp_eval_list es; append_to v vs
