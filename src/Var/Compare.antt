-- ===== src/Var/Compare.antt =====
-- The comparison of variables (`var_compare`, src/var.c).
use Prim.Native.Char.{code}
use mopher.Prelude.{ℕ, String, Option, none, some, ltb, if◌then◌else◌}
use mopher.Prelude.Int.{ℤ, pos, negsuc, ltb_ℤ}
use mopher.Exec.{Result, ok, fail, null_pointer}
use mopher.Var.{Data, Var, addr, int, float, string, blob, v_data}
use mopher.Var.Cast.{Casts, v_type, same_type, var_max_type, var_cast_copy}

-- The results of `var_compare_int` and the like
abbrev pub less : ℤ
less = negsuc 0

abbrev pub greater : ℤ
greater = pos 1

abbrev pub equal : ℤ
equal = pos 0

unfoldable pub var_compare_int : ℤ → ℤ → ℤ
var_compare_int l r = if ltb_ℤ l r then less else if ltb_ℤ r l then greater else equal

-- The sign of `strcmp`: bytes are compared as numbers from 0, which orders UTF-8 as its code points.
unfoldable pub strcmp : String → String → ℤ
strcmp String.[] String.[] = equal
strcmp String.[] (String.◌∷◌ d t) = less
strcmp (String.◌∷◌ c s) String.[] = greater
strcmp (String.◌∷◌ c s) (String.◌∷◌ d t) =
    let rest = strcmp s t in
    if ltb (code c) (code d) then less else if ltb (code d) (code c) then greater else rest

module _ (c : Casts) where
  unfoldable pub var_compare_float : ℕ → ℕ → ℤ
  var_compare_float l r = if c.float_lt l r then less else if c.float_lt r l then greater else equal

  -- `util_addrcmp`, which takes NULL for less than any address
  abbrev pub addrcmp : Option ℕ → Option ℕ → ℤ
  addrcmp none none = equal
  addrcmp none (some b) = less
  addrcmp (some a) none = greater
  addrcmp (some a) (some b) = c.util_addrcmp a b

  -- The `switch` of `var_compare`, on data of one type: `none` is -1.
  unfoldable pub compare_data : Data → Data → Result (Option ℤ)
  unfolding var_compare_int var_compare_float strcmp
  compare_data (int (some l)) (int (some r)) = ok (some (var_compare_int l r))
  compare_data (int l) (int r) = fail null_pointer
  compare_data (float (some l)) (float (some r)) = ok (some (var_compare_float l r))
  compare_data (float l) (float r) = fail null_pointer
  compare_data (string (some l)) (string (some r)) = ok (some (strcmp l r))
  compare_data (string l) (string r) = fail null_pointer
  compare_data (addr l) (addr r) = ok (some (addrcmp l r))
  compare_data (blob (some l)) (blob (some r)) = ok (some (c.blob_compare l r))
  compare_data (blob l) (blob r) = fail null_pointer
  compare_data _ _ = ok none

  -- The side whose type is not the greater one is cast.
  unfoldable pub var_compare : Var → Var → Result (Option ℤ)
  unfolding compare_data var_cast_copy
  var_compare l r =
      let type = var_max_type (v_data l) (v_data r) in
      if same_type (v_type (v_data l)) (v_type (v_data r))
      then compare_data (v_data l) (v_data r)
      else if same_type (v_type (v_data l)) type
      then (elim (var_cast_copy c type r) [
        | none ↦ ok none
        | some u ↦ compare_data (v_data l) (v_data u)
      ])
      else (elim (var_cast_copy c type l) [
        | none ↦ ok none
        | some u ↦ compare_data (v_data u) (v_data r)
      ])
