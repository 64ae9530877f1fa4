-- ===== src/Vtable.antt =====
-- Tables of variables (src/vtable.c) by what they hold: a record is found by its name. Memory is
-- taken to suffice, so the branches that report a failed allocation are left out.
pub mod Laws
use mopher.Prelude.{
  ℕ, ◌+◌, String, Bool, true, false, Option, none, some, List, [], ◌∷◌, str_eq, if◌then◌else◌,
}
use mopher.Var.{Data, Var, Vars, var, nil, cons, int, list, v_data, is_null}

-- `sht_record_match` and the like: `strcmp` on the names
abbrev pub is_named : String → Var → Bool
is_named k (var none d) = false
is_named k (var (some j) d) = str_eq j k

unfoldable pub vtable_lookup : Vars → String → Option Var
vtable_lookup nil k = none
vtable_lookup (cons v vs) k = if is_named k v then some v else vtable_lookup vs k

-- The data of the record, `none` for a NULL: no record, or one without data.
unfoldable pub vtable_get : Vars → String → Option Data
unfolding vtable_lookup
vtable_get t k = elim (vtable_lookup t k) [
  | none ↦ none
  | some v ↦ if is_null (v_data v) then none else some (v_data v)
]

-- `ht_remove` of the record that `vtable_lookup` finds
unfoldable pub vtable_remove : Vars → String → Vars
vtable_remove nil k = nil
vtable_remove (cons v vs) k = if is_named k v then vs else cons v (vtable_remove vs k)

-- A record of that name is replaced.
unfoldable pub vtable_set_new : Vars → String → Data → Vars
unfolding vtable_remove
vtable_set_new t k d = cons (var (some k) d) (vtable_remove t k)

-- The list of `vtable_setv`, in its order
unfoldable pub vtable_setv : Vars → List (String × Data) → Vars
unfolding vtable_set_new
vtable_setv t [] = t
vtable_setv t ((k, d) ∷ rest) = vtable_setv (vtable_set_new t k d) rest

-- `none` where there is no record of the old name; otherwise this record goes, and one of the new name
-- has its data.
unfoldable pub vtable_rename : Vars → String → String → Option Vars
unfolding vtable_lookup vtable_set_new vtable_remove
vtable_rename t old new = elim (vtable_lookup t old) [
  | none ↦ none
  | some v ↦ some (vtable_remove (vtable_set_new t new (v_data v)) old)
]

unfoldable pub vtable_set_null : Vars → String → Vars
unfolding vtable_set_new
vtable_set_null t k = vtable_set_new t k (int none)

unfoldable pub vtable_is_null : Vars → String → Bool
unfolding vtable_get
vtable_is_null t k = elim (vtable_get t k) [ none ↦ true | some d ↦ false ]

-- How many of the names have data; the pointers that the call sets are read by `vtable_get`.
unfoldable pub vtable_dereference : Vars → List String → ℕ
unfolding vtable_get
vtable_dereference t [] = 0
vtable_dereference t (k ∷ ks) =
    (elim (vtable_get t k) [ none ↦ 0 | some d ↦ 1 ]) + vtable_dereference t ks

-- `vlist_append`: `ll_insert_tail`
unfoldable pub vlist_append : Vars → Var → Vars
vlist_append nil v = cons v nil
vlist_append (cons x xs) v = cons x (vlist_append xs v)

-- `none` where the record of that name is no list: the source would take its data for one.
unfoldable pub vtable_list_append_new : Vars → String → Data → Option Vars
unfolding vtable_lookup vtable_set_new vlist_append
vtable_list_append_new t k d = elim (vtable_lookup t k) [
  | none ↦ some (vtable_set_new t k (list (cons (var none d) nil)))
  | some (var n (list xs)) ↦ some (vtable_set_new t k (list (vlist_append xs (var none d))))
  | some v ↦ none
]
