-- ===== src/Exp/Compare.antt =====
-- The comparisons of expressions (`exp_compare`, `exp_eval_in` of src/exp.c; `var_compare` of src/var.c).
use Prim.Native.Char.{Char, code}
use text.Mathlib.TextEquality.{Char-path}
use native.Mathlib.Omega.{arith}
use mopher.Prelude.{
  refl, ltb, eq_iff, refl, ◌≡◌, String, Bool, false, not, ◌||◌, List, [], ◌∷◌, Option, none, some,
  str_eq, if◌then◌else◌,
}
use mopher.Prelude.Int.{ℤ, ltb_ℤ, eqb_ℤ, eq_of_parts}
use mopher.Var.{Var, Vars, var, nil, cons, int, string, list, var_true}
use mopher.Var.Cast.{Casts}
use mopher.Var.Compare.{var_compare, compare_data, var_compare_int, strcmp, equal, less, greater}
use mopher.Exec.{Result, ok, fail}
use mopher.Exp.{
  Operator, lt, gt, le, ge, eq, ne, Value, exp_of, exp_not, exp_compare, compare_result, compared,
  search_list, exp_eval_in,
}

-- The order that a comparison of numbers asks for
abbrev pub relation : Operator → ℤ → ℤ → Bool
relation lt a b = ltb_ℤ a b
relation gt a b = ltb_ℤ b a
relation le a b = not (ltb_ℤ b a)
relation ge a b = not (ltb_ℤ a b)
relation eq a b = eqb_ℤ a b
relation ne a b = not (eqb_ℤ a b)
relation _ a b = false

pub data IsComparator : Operator → Type 0 where
  is_lt : IsComparator lt
  is_gt : IsComparator gt
  is_le : IsComparator le
  is_ge : IsComparator ge
  is_eq : IsComparator eq
  is_ne : IsComparator ne

abbrev pub opposite : Operator → Operator
opposite lt = ge
opposite ge = lt
opposite gt = le
opposite le = gt
opposite eq = ne
opposite ne = eq
opposite op = op

-- `!` on what an operator returns
abbrev pub negated : Value → Value
negated (ok (some v)) = ok (some (exp_not (some v)))
negated x = x

-- A comparison of two numbers is the comparison of the integers.
pub exp_compare-relation :
    (c : Casts) {op : Operator} (p : IsComparator op) (a b : Option String) (i j : ℤ)
    → exp_compare c op (some (var a (int (some i)))) (some (var b (int (some j))))
      ≡ ok (some (exp_of (relation op i j)))
unfolding exp_compare compare_result var_compare compare_data var_compare_int
exp_compare-relation c is_lt a b i j = ground arith
exp_compare-relation c is_gt a b i j = ground arith
exp_compare-relation c is_le a b i j = ground arith
exp_compare-relation c is_ge a b i j = ground arith
exp_compare-relation c is_eq a b i j = ground arith
exp_compare-relation c is_ne a b i j = ground arith

compare_result-opposite :
    {op : Operator} (p : IsComparator op) (n : ℤ)
    → compared (opposite op) (ok (some n)) ≡ negated (ok (compare_result op n))
unfolding compare_result exp_not var_true
compare_result-opposite is_lt n = ground arith
compare_result-opposite is_gt n = ground arith
compare_result-opposite is_le n = ground arith
compare_result-opposite is_ge n = ground arith
compare_result-opposite is_eq n = ground arith
compare_result-opposite is_ne n = ground arith

compared-opposite :
    {op : Operator} (p : IsComparator op) (x : Result (Option ℤ))
    → compared (opposite op) x ≡ negated (compared op x)
compared-opposite p (fail e) = refl
compared-opposite p (ok none) = refl
compared-opposite p (ok (some n)) = compare_result-opposite p n

-- The opposite operator compares any two operands to the negation of what the operator does, and fails where the operator fails.
pub exp_compare-opposite :
    (c : Casts) {op : Operator} (p : IsComparator op) (l r : Option Var)
    → exp_compare c (opposite op) l r ≡ negated (exp_compare c op l r)
unfolding exp_compare exp_not
exp_compare-opposite c p none r = refl
exp_compare-opposite c p (some l) none = refl
exp_compare-opposite c p (some l) (some r) =
    let e = compared-opposite p (var_compare c l r) in ground arith

equal_char :
    (c d : Char) (n : ℤ)
    → (if ltb (code c) (code d) then less else if ltb (code d) (code c) then greater else n) ≡ equal
    → (c ≡ d) × (n ≡ equal)
equal_char c d n h = (Char-path c d (ground arith), ground arith)

strcmp_sound : (s t : String) → strcmp s t ≡ equal → s ≡ t
unfolding strcmp
strcmp_sound String.[] String.[] h = refl
strcmp_sound String.[] (String.◌∷◌ d t) h = cc
strcmp_sound (String.◌∷◌ c s) String.[] h = cc
strcmp_sound (String.◌∷◌ c s) (String.◌∷◌ d t) h =
    let (e, rest) = equal_char c d (strcmp s t) h in let tail = strcmp_sound s t rest in cc

strcmp_refl : (s : String) → strcmp s s ≡ equal
unfolding strcmp
strcmp_refl String.[] = refl
strcmp_refl (String.◌∷◌ c s) = let rest = strcmp_refl s in ground arith

-- Texts compare as equal if they are equal.
pub strcmp-equal : (s t : String) → eqb_ℤ (strcmp s t) equal ≡ str_eq s t
strcmp-equal s t =
    ground (arith, eq_iff s t, strcmp_sound s t, strcmp_refl s, eq_of_parts (strcmp s t) equal)

abbrev pub strings : List String → Vars
strings [] = nil
strings (s ∷ ss) = cons (var none (string (some s))) (strings ss)

abbrev pub has : String → List String → Bool
has s [] = false
has s (t ∷ ts) = str_eq s t || has s ts

search_list-has :
    (c : Casts) (a : Option String) (s : String) (cmp : Option ℤ) (ts : List String)
    → search_list c (var a (string (some s))) cmp (strings ts) ≡ ok (some (exp_of (has s ts)))
unfolding search_list var_compare compare_data
search_list-has c a s cmp [] = refl
search_list-has c a s cmp (t ∷ ts) =
    let rest = search_list-has c a s (some (strcmp s t)) ts in
    let e = strcmp-equal s t in ground arith

-- A text is `in` a list of texts if it is one of them.
pub exp_eval_in-has :
    (c : Casts) (a b : Option String) (s : String) (ts : List String)
    → exp_eval_in c (some (var a (string (some s)))) (some (var b (list (strings ts))))
      ≡ ok (some (exp_of (has s ts)))
unfolding exp_eval_in search_list var_compare compare_data
exp_eval_in-has c a b s ts = search_list-has c a s none ts
