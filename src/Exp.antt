-- ===== src/Exp.antt =====
-- Expressions of the access list (src/exp.c): their syntax, and what the operators make of values. The
-- evaluator is Exp/Eval.antt. A value is a variable, and NULL is `none`; the three constants `exp_true`,
-- `exp_false` and `exp_empty` are variables without a name. Which values are freed after an evaluation is
-- not modelled.
pub mod Symbols
pub mod Eval
pub mod Arguments
pub mod Pure
pub mod Compare
pub mod Logic
pub mod Numbers
pub mod Variables
pub mod Rules
pub mod Sample
mod Tests
use Prim.Native.Char.{code}
use Prim.Native.String.{len, ◌++◌}
use mopher.Prelude.{
  ◌||◌, ℕ, ◌+◌, String, Bool, true, false, not, ◌&&◌, Option, none, some, ltb, leb, if◌then◌else◌,
}
use mopher.Prelude.Int.{long_min, ℤ, pos, negsuc, ◌+ℤ◌, ◌-ℤ◌, ◌*ℤ◌, ◌/ℤ◌, ◌%ℤ◌, eqb_ℤ, to_long}
use mopher.Exec.{Result, ok, fail, null_pointer, uninitialized, undefined}
use mopher.Var.{
  Data, Var, Vars, null, table, list, addr, int, float, pointer, string, blob, var, nil, cons,
  v_data, is_null, var_true,
}
use mopher.Var.Cast.{VarType, Casts, v_type, same_type, var_max_type, var_cast_copy}
use mopher.Var.Compare.{var_compare, less, equal, greater}

-- The operators that take two values
pub data Operator : Type 0 where
  lt gt le ge eq ne matches nr in_list add sub mul div mod_op : Operator

-- `exp_t`; an `operation` without a second operand, and a `function` without arguments, have
-- constructors of their own. The parser builds `assign` with a variable on the left.
mutual
  pub data Exp : Type 0 where
    parentheses : Exp → Exp
    constant : Var → Exp
    exp_list : Exps → Exp
    symbol variable macro : String → Exp
    call_empty : String → Exp
    call : String → Exp → Exp
    assign : String → Exp → Exp
    is_set : Exp → Exp
    not_op is_null_op : Exp → Exp
    and_op or_op : Exp → Exp → Exp
    operation : Operator → Exp → Exp → Exp
    ternary : Exp → Exp → Exp → Exp

  pub data Exps : Type 0 where
    end : Exps
    item : Exp → Exps → Exps

-- A `double` is its bits. `regcomp` and `regexec` are one function of whether case is ignored, the
-- pattern and the text, which returns `none` if the pattern does not compile. `isupper` is that of the
-- C locale.
pub record Operators : Type 0 where
  pub casts : Casts
  pub float_math : Operator → ℕ → ℕ → ℕ
  pub regexec : Bool → String → String → Option Bool
  pub util_addr_prefix : ℕ → ℤ → ℕ

abbrev pub exp_empty : Var
exp_empty = var none (int none)

abbrev pub exp_true : Var
exp_true = var none (int (some (pos 1)))

abbrev pub exp_false : Var
exp_false = var none (int (some (pos 0)))

abbrev pub exp_of : Bool → Var
exp_of b = if b then exp_true else exp_false

-- What an operator returns: NULL is `none`.
abbrev pub Value : Type 0
Value = Result (Option Var)

abbrev pub data_known : Option Var → Bool
data_known none = false
data_known (some v) = not (is_null (v_data v))

-- The inner `switch` of `exp_compare`, for the three results of a comparison
abbrev pub holds_less : Operator → Bool
holds_less lt = true
holds_less le = true
holds_less ne = true
holds_less _ = false

abbrev pub holds_equal : Operator → Bool
holds_equal le = true
holds_equal ge = true
holds_equal eq = true
holds_equal _ = false

abbrev pub holds_greater : Operator → Bool
holds_greater gt = true
holds_greater ge = true
holds_greater ne = true
holds_greater _ = false

unfoldable pub compare_result : Operator → ℤ → Option Var
compare_result op cmp =
    if eqb_ℤ cmp less
    then some (exp_of (holds_less op))
    else if eqb_ℤ cmp equal
    then some (exp_of (holds_equal op))
    else if eqb_ℤ cmp greater
    then some (exp_of (holds_greater op))
    else none

abbrev pub compared : Operator → Result (Option ℤ) → Value
compared op (fail e) = fail e
compared op (ok none) = ok none
compared op (ok (some cmp)) = ok (compare_result op cmp)

unfoldable pub exp_compare : Casts → Operator → Option Var → Option Var → Value
unfolding compare_result var_compare
exp_compare c op none right = ok (some exp_empty)
exp_compare c op (some l) none = ok (some exp_empty)
exp_compare c op (some l) (some r) =
    if is_null (v_data l)
    then ok (some exp_empty)
    else if is_null (v_data r)
    then ok (some exp_empty)
    else compared op (var_compare c l r)

-- A sum, a difference and a product keep their low 64 bits.
unfoldable pub long_result : ℤ → Value
unfolding to_long
long_result x = ok (some (var none (int (some (to_long x)))))

-- Divisors that the processor refuses: 0, and -1 for the least `long`, whose quotient is no `long`
abbrev pub traps : ℤ → ℤ → Bool
traps l r = eqb_ℤ r (pos 0) || eqb_ℤ r (negsuc 0) && eqb_ℤ l long_min

unfoldable pub exp_math_int : Operator → Option ℤ → Option ℤ → Value
unfolding long_result
exp_math_int op none r = ok (some exp_empty)
exp_math_int op (some l) none = ok (some exp_empty)
exp_math_int add (some l) (some r) = long_result (l +ℤ r)
exp_math_int sub (some l) (some r) = long_result (l -ℤ r)
exp_math_int mul (some l) (some r) = long_result (l *ℤ r)
exp_math_int div (some l) (some r) =
    if traps l r then fail undefined else ok (some (var none (int (some (l /ℤ r)))))
exp_math_int mod_op (some l) (some r) =
    if traps l r then fail undefined else ok (some (var none (int (some (l %ℤ r)))))
exp_math_int op (some l) (some r) = ok none

-- `exp_math_float` has no `%`.
abbrev pub is_float_op : Operator → Bool
is_float_op add = true
is_float_op sub = true
is_float_op mul = true
is_float_op div = true
is_float_op _ = false

unfoldable pub exp_math_float : Operators → Operator → Option ℕ → Option ℕ → Value
exp_math_float o op none r = ok (some exp_empty)
exp_math_float o op (some l) none = ok (some exp_empty)
exp_math_float o op (some l) (some r) =
    if is_float_op op then ok (some (var none (float (some (o.float_math op l r))))) else ok none

abbrev pub or_null : Option String → String
or_null none = "(null)"
or_null (some s) = s

-- `EXP_STRLEN` is the size of the buffer that `util_concat` fills, with the zero byte.
unfoldable pub exp_math_string : Operator → Option String → Option String → Value
exp_math_string add l r =
    if leb (len (or_null l) + len (or_null r)) 1023
    then ok (some (var none (string (some (or_null l ++ or_null r)))))
    else ok none
exp_math_string op l r = ok none

unfoldable pub exp_is_null : Option Var → Var
exp_is_null v = exp_of (not (data_known v))

unfoldable pub exp_not : Option Var → Var
unfolding var_true
exp_not none = exp_empty
exp_not (some v) =
    if is_null (v_data v) then exp_empty else if var_true v then exp_false else exp_true

abbrev pub has_upper : String → Bool
has_upper String.[] = false
has_upper (String.◌∷◌ c s) =
    let rest = has_upper s in if leb b'A' (code c) && leb (code c) b'Z' then true else rest

-- The operand of a match as a text
abbrev pub text_of : Casts → Var → Option (Option String)
text_of c v = elim (v_data v) [
  | string s ↦ some s
  | _ ↦ elim (var_cast_copy c VarType.vt_string v) [
    | none ↦ none
    | some u ↦ elim (v_data u) [ string s ↦ some s | _ ↦ none ]
  ]
]

abbrev pub regex_result : Operator → Option Bool → Option Var
regex_result op none = none
regex_result matches (some found) = some (exp_of found)
regex_result op (some found) = some (exp_of (not found))

-- A pattern without upper case letters ignores the case.
unfoldable pub exp_eval_regex : Operators → Operator → Option Var → Option Var → Value
exp_eval_regex o op none right = ok (some exp_empty)
exp_eval_regex o op (some l) none = ok (some exp_empty)
exp_eval_regex o op (some l) (some r) =
    if is_null (v_data l)
    then ok (some exp_empty)
    else if is_null (v_data r)
    then ok (some exp_empty)
    else elim (text_of o.casts l) [
      | none ↦ ok none
      | some none ↦ fail null_pointer
      | some (some str) ↦ elim (text_of o.casts r) [
        | none ↦ ok none
        | some none ↦ fail null_pointer
        | some (some pattern) ↦
            ok (regex_result op (o.regexec (not (has_upper pattern)) pattern str))
      ]
    ]

-- The loop of `exp_eval_in`. `cmp` keeps its value where a comparison fails; `none` is no value yet.
unfoldable pub search_list : Casts → Var → Option ℤ → Vars → Value
unfolding var_compare
search_list c needle cmp nil = ok (some exp_false)
search_list c needle cmp (cons v vs) = elim (var_compare c needle v) [
  | fail e ↦ fail e
  | ok (some n) ↦
      let rest = search_list c needle (some n) vs in
      if eqb_ℤ n equal then ok (some exp_true) else rest
  | ok none ↦ elim cmp [
    | none ↦ fail uninitialized
    | some n ↦
        let rest = search_list c needle (some n) vs in
        if eqb_ℤ n equal then ok (some exp_true) else rest
  ]
]

unfoldable pub exp_eval_in : Casts → Option Var → Option Var → Value
unfolding search_list
exp_eval_in c none haystack = ok (some exp_empty)
exp_eval_in c (some needle) none = ok (some exp_empty)
exp_eval_in c (some needle) (some haystack) =
    if is_null (v_data needle)
    then ok (some exp_empty)
    else if is_null (v_data haystack)
    then ok (some exp_empty)
    else elim (v_data haystack) [ list xs ↦ search_list c needle none xs | _ ↦ ok none ]
