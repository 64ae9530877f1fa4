-- ===== src/Memdb/Sample.antt =====
-- Records of two numbers, the first of which is the key.
use mopher.Prelude.{
  ℕ, ◌*◌, ◌^◌, ◌<◌, ◌≡◌, refl, true, false, ◌&&◌, Option, none, some, List, [], ◌∷◌, ltb, arith,
}
use mopher.Prelude.Int.{ℤ, pos_part}
use mopher.Var.Cast.{VarType}
use mopher.Ht.{Load}
use mopher.Vp.{item, Record, copy_size}
use mopher.Vp.Round.{without_data}
use mopher.Memdb.Map.{IsOf}

abbrev pub no_dump : List ℕ → Option (List ℕ)
no_dump p = none

abbrev pub overloaded : Load
overloaded b r = ltb b (2 * pos_part r) && ltb b 1000000

pub overloaded-bounded : (b : ℕ) (r : ℤ) → overloaded b r ≡ true → b < 2 ^ 31
overloaded-bounded b r e = ground arith

abbrev pub eight : ℕ → List ℕ
eight n = n ∷ 0 ∷ 0 ∷ 0 ∷ 0 ∷ 0 ∷ 0 ∷ 0 ∷ []

abbrev pub pair : ℕ → ℕ → Record
pair key value = record {
  type = VarType.vt_list;
  name = some "pairs";
  items =
      item VarType.vt_int (some "pairs_key") true (some (eight key))
      ∷ item VarType.vt_int (some "pairs_value") false (some (eight value))
      ∷ [];
}

abbrev pub pairs : Record
pairs = record {
  type = VarType.vt_list;
  name = some "pairs";
  items =
      item VarType.vt_int (some "pairs_key") true none
      ∷ item VarType.vt_int (some "pairs_value") false none
      ∷ [];
}

pub pair-IsOf : (key value : ℕ) → IsOf pairs (pair key value)
unfolding copy_size without_data
pair-IsOf key value = record {
  packable = record { is_list = refl; few = omega arith; objects = (refl, (refl, tt)) };
  scheme_is = refl;
}

abbrev pub nothing : List ℕ → Option Record
nothing k = none
