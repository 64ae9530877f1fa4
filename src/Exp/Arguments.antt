-- ===== src/Exp/Arguments.antt =====
-- The arguments of a simple function (`exp_eval_function_simple` of src/exp.c) and the casts of src/var.c
-- that prepare them.
use native.Mathlib.Omega.{arith}
use mopher.Prelude.{
  ℕ, ap, Bool-cases, Option-cases, inl, inr, ◌≡◌, refl, ◌∙◌, sym, String, Bool, true, false, Option,
  none, some, List, [], ◌∷◌, ◌==◌, if◌then◌else◌,
}
use mopher.Prelude.Int.{negsuc, eqb_ℤ}
use mopher.Var.{
  Data, Var, Vars, null, table, list, addr, int, float, pointer, string, blob, nil, cons, var,
  v_data, is_null,
}
use mopher.Var.Cast.{
  VarType, Casts, type_rank, v_type, same_type, var_copy, no_data, cast_data, var_as_int,
  var_as_float, var_as_string, var_as_blob, with_name, var_cast_copy,
}
use mopher.Exp.Symbols.{Registry, simple}
use mopher.Exp.Eval.{prepare_argv, argc, exp_eval_function}

-- The type that a cast to a type leaves, where it leaves data
abbrev HasType : VarType → Option Data → Type 0
HasType t none = Unit
HasType t (some d) = type_rank (v_type d) ≡ type_rank t

no_data-HasType : (t : VarType) → HasType t (no_data t)
no_data-HasType VarType.vt_null = refl
no_data-HasType VarType.vt_table = tt
no_data-HasType VarType.vt_list = tt
no_data-HasType VarType.vt_addr = refl
no_data-HasType VarType.vt_int = refl
no_data-HasType VarType.vt_float = refl
no_data-HasType VarType.vt_pointer = refl
no_data-HasType VarType.vt_string = refl
no_data-HasType VarType.vt_blob = refl

-- The data that an address has as a number, if it has
if_HasType :
    (b : Bool) (t : VarType) (d : Data)
    → HasType t (some d)
    → HasType t (if b then none else some d)
if_HasType true t d h = tt
if_HasType false t d h = h

either_HasType :
    (b : Bool) (t : VarType) (x y : Option Data)
    → HasType t x
    → HasType t y
    → HasType t (if b then x else y)
either_HasType true t x y h k = h
either_HasType false t x y h k = k

named_HasType :
    (c : Casts) (t : VarType) (name : Option String) (o : Option Data) (u : Var)
    → HasType t o
    → with_name c name o ≡ some u
    → type_rank (v_type (v_data u)) ≡ type_rank t
named_HasType c t name none u h k = cc
named_HasType c t name (some d) u h k = cc

module _ (c : Casts) where
  int-HasType : (d : Data) → HasType VarType.vt_int (var_as_int c d)
  unfolding var_as_int
  int-HasType null = tt
  int-HasType (table xs) = tt
  int-HasType (list xs) = tt
  int-HasType (addr none) = tt
  int-HasType (addr (some a)) =
      if_HasType (eqb_ℤ (c.util_addrtoint a) (negsuc 0)) VarType.vt_int
        (int (some (c.util_addrtoint a))) refl
  int-HasType (int i) = tt
  int-HasType (float none) = tt
  int-HasType (float (some f)) = refl
  int-HasType (pointer p) = tt
  int-HasType (string none) = tt
  int-HasType (string (some s)) = refl
  int-HasType (blob b) = tt

  float-HasType : (d : Data) → HasType VarType.vt_float (var_as_float c d)
  unfolding var_as_float
  float-HasType (int (some i)) = refl
  float-HasType (string (some s)) = refl
  float-HasType _ = tt

  text-HasType :
      (o : Option String)
      → HasType VarType.vt_string (elim o [ none ↦ none | some s ↦ some (string (some s)) ])
  text-HasType none = tt
  text-HasType (some s) = refl

  string-HasType : (d : Data) → HasType VarType.vt_string (var_as_string c d)
  unfolding var_as_string
  string-HasType d = text-HasType (c.var_dump_data d)

  blob-HasType : (d : Data) → HasType VarType.vt_blob (var_as_blob c d)
  unfolding var_as_blob
  blob-HasType (int (some i)) = refl
  blob-HasType (float (some i)) = refl
  blob-HasType (string (some s)) = refl
  blob-HasType (addr (some a)) = refl
  blob-HasType _ = tt

  cast_data-HasType : (t : VarType) (d : Data) → HasType t (cast_data c t d)
  unfolding cast_data
  cast_data-HasType VarType.vt_int d = int-HasType d
  cast_data-HasType VarType.vt_float d = float-HasType d
  cast_data-HasType VarType.vt_string d = string-HasType d
  cast_data-HasType VarType.vt_blob d = blob-HasType d
  cast_data-HasType t d = tt

  -- A cast that succeeds has the type that was asked for, and keeps the name.
  pub var_cast_copy-type :
      (t : VarType) (v u : Var)
      → var_cast_copy c t v ≡ some u
      → type_rank (v_type (v_data u)) ≡ type_rank t
  unfolding var_cast_copy var_copy
  var_cast_copy-type t (var name d) u h = elim (Bool-cases (same_type t (v_type d))) [
    | inl same ↦ let copied = rw same at h in ground arith
    | inr other ↦
        named_HasType c t name (if is_null d then no_data t else cast_data c t d) u
          (either_HasType (is_null d) t (no_data t) (cast_data c t d) (no_data-HasType t)
            (cast_data-HasType t d))
          (rw other at h)
  ]

abbrev pub types_of : List Data → List VarType
types_of [] = []
types_of (d ∷ ds) = v_type d ∷ types_of ds

unfoldable of_rank : ℕ → VarType
of_rank n =
    if n == 1
    then VarType.vt_table
    else if n == 2
    then VarType.vt_list
    else if n == 3
    then VarType.vt_addr
    else if n == 4
    then VarType.vt_int
    else if n == 5
    then VarType.vt_float
    else if n == 6
    then VarType.vt_pointer
    else if n == 7
    then VarType.vt_string
    else if n == 8
    then VarType.vt_blob
    else VarType.vt_null

of_rank-type_rank : (t : VarType) → of_rank (type_rank t) ≡ t
unfolding of_rank
of_rank-type_rank VarType.vt_null = refl
of_rank-type_rank VarType.vt_table = refl
of_rank-type_rank VarType.vt_list = refl
of_rank-type_rank VarType.vt_addr = refl
of_rank-type_rank VarType.vt_int = refl
of_rank-type_rank VarType.vt_float = refl
of_rank-type_rank VarType.vt_pointer = refl
of_rank-type_rank VarType.vt_string = refl
of_rank-type_rank VarType.vt_blob = refl

type_rank_inj : (s t : VarType) → type_rank s ≡ type_rank t → s ≡ t
type_rank_inj s t h = sym (of_rank-type_rank s) ∙ ap of_rank h ∙ of_rank-type_rank t

next_argument :
    (o : Option Var) (rest : Option (List Data)) (ds : List Data)
    → (elim o [ none ↦ none | some u ↦ elim rest [ none ↦ none | some es ↦ some (v_data u ∷ es) ] ])
      ≡ some ds
    → (u : Var) × ((es : List Data) × ((o ≡ some u) × ((rest ≡ some es) × (v_data u ∷ es ≡ ds))))
next_argument none rest ds h = cc
next_argument (some u) none ds h = cc
next_argument (some u) (some es) ds h = (u, (es, (refl, (refl, cc))))

module _ (r : Registry) where
  cast_argument :
      (t : VarType) (v u : Var)
      → (if same_type t (v_type (v_data v)) then some v else var_cast_copy r.operators.casts t v)
        ≡ some u
      → type_rank (v_type (v_data u)) ≡ type_rank t
  cast_argument t v u h = elim (Bool-cases (same_type t (v_type (v_data v)))) [
    | inl same ↦ let kept = rw same at h in ground arith
    | inr other ↦ var_cast_copy-type r.operators.casts t v u (rw other at h)
  ]

  prepare_argv-types :
      (types : List VarType) (args : Vars) (ds : List Data)
      → argc args types ≡ true
      → prepare_argv r types args ≡ some ds
      → types_of ds ≡ types
  unfolding prepare_argv
  prepare_argv-types [] nil ds h k = cc
  prepare_argv-types (t ∷ ts) nil ds h k = cc
  prepare_argv-types [] (cons v vs) ds h k = cc
  prepare_argv-types (t ∷ ts) (cons v vs) ds h k =
      let (u, (es, (o, (rest, e)))) = next_argument _ _ ds k in
      let first = type_rank_inj (v_type (v_data u)) t (cast_argument t v u o) in
      let others = prepare_argv-types ts vs es h rest in rw (sym e) (cc)

  -- If a simple function returns a value, its callback returned it for data of exactly the types that the function was registered with.
  pub exp_eval_function-types :
      (types : List VarType) (callback : List Data → Option Var) (args : Vars) (v : Var)
      → exp_eval_function r (simple types callback) args ≡ some v
      → (ds : List Data) × ((types_of ds ≡ types) × (callback ds ≡ some v))
  unfolding exp_eval_function
  exp_eval_function-types types callback args v h = elim (Bool-cases (argc args types)) [
    | inl full ↦ elim (Option-cases (prepare_argv r types args)) [
      | inl missing ↦ let bad = rw (full, missing) at h in cc
      | inr (ds, argv) ↦ (ds, (prepare_argv-types types args ds full argv, rw (full, argv) at h))
    ]
    | inr other ↦ let bad = rw other at h in cc
  ]
