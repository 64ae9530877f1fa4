-- ===== src/Vtable/Laws.antt =====
-- What a table returns after a write or a removal.
use mopher.Prelude.{String, ◌≡◌, refl, false, none, some, arith, str_eq, eq_iff, if◌then◌else◌}
use mopher.Var.{Data, Vars, var, nil, cons, is_null}
use mopher.Vtable.{vtable_lookup, vtable_get, vtable_remove, vtable_set_new}

pub lookup-remove_ne :
    (t : Vars) (k j : String)
    → str_eq k j ≡ false
    → vtable_lookup (vtable_remove t k) j ≡ vtable_lookup t j
unfolding vtable_lookup vtable_remove
lookup-remove_ne nil k j h = refl
lookup-remove_ne (cons (var none d) vs) k j h = lookup-remove_ne vs k j h
lookup-remove_ne (cons (var (some i) d) vs) k j h =
    ground (arith, lookup-remove_ne vs k j h, eq_iff i k, eq_iff i j, eq_iff k j)

-- A write is seen under its own name, and under no other.
pub lookup-set_new :
    (t : Vars) (k j : String) (d : Data)
    → vtable_lookup (vtable_set_new t k d) j
      ≡ (if str_eq k j then some (var (some k) d) else vtable_lookup t j)
unfolding vtable_lookup vtable_set_new
lookup-set_new t k j d = ground (arith, lookup-remove_ne t k j)

pub get-set_new :
    (t : Vars) (k j : String) (d : Data)
    → vtable_get (vtable_set_new t k d) j
      ≡ (if str_eq k j then (if is_null d then none else some d) else vtable_get t j)
unfolding vtable_get
get-set_new t k j d = ground (arith, lookup-set_new t k j d)
