-- ===== src/Counter/Found.antt =====
-- A key whose names all have data in the mailspec.
use mopher.Prelude.{
  ◌+◌, String, false, ◌≡◌, refl, Option, none, some, List, [], ◌∷◌, ◌++◌, arith, length,
  Option-cases, inl, inr,
}
use mopher.Var.{Data, Var, Vars, null, table, list, addr, int, float, pointer, string, blob}
use mopher.Vtable.{vtable_lookup, vtable_get, vtable_dereference}
use mopher.Exec.{Result, ok, fail}
use mopher.Counter.Scheme.{vlist_record_keys_missing, with_key, key_data, lookup_key}

lookup-of_get :
    (m : Vars) (k : String) {d : Data}
    → vtable_get m k ≡ some d
    → (v : Var) × (vtable_lookup m k ≡ some v)
unfolding vtable_get
lookup-of_get m k h = elim (Option-cases (vtable_lookup m k)) [
  | inl e ↦ absurd (ground (arith, e, h))
  | inr (v, e) ↦ (v, e)
]

with_key-some :
    (s : String) (r : Result (Option (List String))) {key : List String}
    → with_key s r ≡ ok (some key)
    → (rest : List String) × (r ≡ ok (some rest))
with_key-some s (ok (some ss)) h = (ss, refl)
with_key-some s (ok none) h = cc
with_key-some s (fail e) h = cc

abbrev IsFound : Option Data → Result (Option (List String)) → Type 0
IsFound o r = ((d : Data) × (o ≡ some d)) × ((rest : List String) × (r ≡ ok (some rest)))

key_data-IsFound :
    (o : Option Data) (r : Result (Option (List String))) {key : List String}
    → key_data o r ≡ ok (some key)
    → IsFound o r
key_data-IsFound none r h = cc
key_data-IsFound (some (string (some s))) r h = ((string (some s), refl), with_key-some s r h)
key_data-IsFound (some (string none)) r h = cc
key_data-IsFound (some null) r h = cc
key_data-IsFound (some (table t)) r h = cc
key_data-IsFound (some (list t)) r h = cc
key_data-IsFound (some (addr a)) r h = cc
key_data-IsFound (some (int a)) r h = cc
key_data-IsFound (some (float a)) r h = cc
key_data-IsFound (some (pointer a)) r h = cc
key_data-IsFound (some (blob a)) r h = cc

-- The first key of a key that was found, and the rest
lookup_key-IsFound :
    (k : String) (ks : List String) (m : Vars) {key : List String}
    → lookup_key (k ∷ ks) m ≡ ok (some key)
    → IsFound (vtable_get m k) (lookup_key ks m)
unfolding lookup_key
lookup_key-IsFound k ks m h = key_data-IsFound (vtable_get m k) (lookup_key ks m) h

-- A key that was found lacks nothing.
pub keys_missing-found :
    (ks : List String) (m : Vars) {key : List String}
    → lookup_key ks m ≡ ok (some key)
    → vlist_record_keys_missing ks m ≡ false
unfolding vlist_record_keys_missing
keys_missing-found [] m h = refl
keys_missing-found (k ∷ ks) m h =
    let ((d, e), (rest, more)) = lookup_key-IsFound k ks m h in
    let (v, there) = lookup-of_get m k e in
    rw (there, vlist_record_keys_missing) (keys_missing-found ks m more)

pub dereference-found :
    (ks : List String) (m : Vars) {key : List String} {d : Data}
    → lookup_key ks m ≡ ok (some key)
    → vtable_get m "received" ≡ some d
    → vtable_dereference m (ks ++ "received" ∷ []) ≡ length ks + 1
unfolding vtable_dereference
dereference-found [] m h received = rw received
dereference-found (k ∷ ks) m h received =
    let ((d, e), (rest, more)) = lookup_key-IsFound k ks m h in
    rw e (omega (arith, dereference-found ks m more received))
