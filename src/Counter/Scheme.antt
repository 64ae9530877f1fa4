-- ===== src/Counter/Scheme.antt =====
-- The tables of the counters (`counter_init` of src/modules/counter.c), the keys and the values of a record as
-- src/dbt.c and src/vlist.c read them from a table and load them into one, and the interface of a driver.
use mopher.Prelude.{
  String, Bool, true, false, ◌&&◌, ◌≡◌, Option, none, some, List, [], ◌∷◌, str_eq, if◌then◌else◌,
}
use mopher.Prelude.Int.{ℤ, pos, negsuc, ◌+ℤ◌, ltb_ℤ}
use mopher.Var.{Data, Vars, int, string}
use mopher.Vtable.{vtable_lookup, vtable_get, vtable_set_new, vtable_is_null}
use mopher.Exec.{Result, ok, fail, null_pointer, undefined}

pub data Counter : Type 0 where
  relay origin domain penpal : Counter

-- The value part of a record; `none` is a NULL, which a database may hold.
pub record Tuple : Type 0 where
  pub created : Option ℤ
  pub updated : Option ℤ
  pub expire : Option ℤ
  pub count : Option ℤ

abbrev pub name_of : Counter → String
name_of relay = "counter_relay"
name_of origin = "counter_origin"
name_of domain = "counter_domain"
name_of penpal = "counter_penpal"

-- The names of a scheme with VF_KEY
abbrev pub keys : Counter → List String
keys relay = "hostaddr_str" ∷ []
keys origin = "origin" ∷ []
keys domain = "origin" ∷ "envfrom_domain" ∷ []
keys penpal = "origin" ∷ "envfrom_addr" ∷ "envrcpt_addr" ∷ []

-- The other names, with the values of a record
abbrev pub values : Counter → Tuple → List (String × Option ℤ)
values relay t =
    ("counter_relay_created", t.created)
    ∷ ("counter_relay_updated", t.updated)
    ∷ ("counter_relay_expire", t.expire)
    ∷ ("counter_relay", t.count)
    ∷ []
values origin t =
    ("counter_origin_created", t.created)
    ∷ ("counter_origin_updated", t.updated)
    ∷ ("counter_origin_expire", t.expire)
    ∷ ("counter_origin", t.count)
    ∷ []
values domain t =
    ("counter_domain_created", t.created)
    ∷ ("counter_domain_updated", t.updated)
    ∷ ("counter_domain_expire", t.expire)
    ∷ ("counter_domain", t.count)
    ∷ []
values penpal t =
    ("counter_penpal_created", t.created)
    ∷ ("counter_penpal_updated", t.updated)
    ∷ ("counter_penpal_expire", t.expire)
    ∷ ("counter_penpal", t.count)
    ∷ []

unfoldable pub key_eq : List String → List String → Bool
key_eq [] [] = true
key_eq [] (b ∷ bs) = false
key_eq (a ∷ as') [] = false
key_eq (a ∷ as') (b ∷ bs) = str_eq a b && key_eq as' bs

-- `get` is `none` where the call fails, and else the record or NULL; `set` returns whether it succeeded. A
-- successful write is what a later read returns, and changes no other record.
pub record Driver : Type 1 where
  pub Db : Type 0
  pub get : Db → List String → Option (Option Tuple)
  pub set : Db → List String → Tuple → Bool × Db
  pub get-set :
      (db : Db) (k j : List String) (t : Tuple)
      → (set db k t).0 ≡ true
      → get (set db k t).1 j ≡ (if key_eq k j then some (some t) else get db j)

-- The configuration
pub record Limits : Type 0 where
  pub cf_counter_expire_low : ℤ
  pub cf_counter_expire_high : ℤ
  pub cf_counter_threshold : ℤ

abbrev pub minus_one : ℤ
minus_one = negsuc 0

-- -1 if a key is in no record of the table; one without data is there.
unfoldable pub vlist_record_keys_missing : List String → Vars → Bool
unfolding vtable_lookup
vlist_record_keys_missing [] m = false
vlist_record_keys_missing (k ∷ ks) m = elim (vtable_lookup m k) [
  | none ↦ true
  | some v ↦ vlist_record_keys_missing ks m
]

abbrev pub with_key : String → Result (Option (List String)) → Result (Option (List String))
with_key s (ok (some ss)) = ok (some (s ∷ ss))
with_key s (ok none) = ok none
with_key s (fail e) = fail e

-- The data of one key before those of the others; `none` where a key has no data. Data of another type would
-- be read as a text.
abbrev pub key_data : Option Data → Result (Option (List String)) → Result (Option (List String))
key_data none rest = ok none
key_data (some (string (some s))) rest = with_key s rest
key_data (some d) rest = fail undefined

-- The key of the record that is looked up
unfoldable pub lookup_key : List String → Vars → Result (Option (List String))
unfolding vtable_get
lookup_key [] m = ok (some [])
lookup_key (k ∷ ks) m = key_data (vtable_get m k) (lookup_key ks m)

abbrev pub time_of : Data → Result ℤ
time_of (int (some received)) = ok received
time_of d = fail undefined

-- Data of the table is not overwritten.
unfoldable pub load_value : String → Option ℤ → Vars → Vars
unfolding vtable_is_null vtable_set_new
load_value name d m = if vtable_is_null m name then vtable_set_new m name (int d) else m

unfoldable pub load_values : List (String × Option ℤ) → Vars → Vars
unfolding load_value
load_values [] m = m
load_values ((name, d) ∷ rest) m = load_values rest (load_value name d m)

abbrev pub or_null : Option Tuple → Tuple
or_null none = record { created = none; updated = none; expire = none; count = none }
or_null (some t) = t

abbrev pub new_tuple : Limits → ℤ → Tuple
new_tuple limits received = record {
  created = some received;
  updated = some received;
  expire = some (received +ℤ limits.cf_counter_expire_low);
  count = some (pos 1);
}

-- A record with `n` messages after one more
abbrev pub counted : Limits → ℤ → Tuple → ℤ → Tuple
counted limits received t n = record t {
  updated = some received;
  expire = some (
      received
      +ℤ (if ltb_ℤ limits.cf_counter_threshold (n +ℤ pos 1)
          then limits.cf_counter_expire_high
          else limits.cf_counter_expire_low));
  count = some (n +ℤ pos 1);
}

-- `*count` is logged before the pointers are compared with NULL. The result has the count that is returned.
unfoldable pub renew :
    Limits → Data → Option ℤ → Option ℤ → Option ℤ → Tuple → Result (Option (ℤ × Tuple))
renew limits d updated expire none t = fail null_pointer
renew limits d none expire (some n) t = ok none
renew limits d (some u) none (some n) t = ok none
renew limits d (some u) (some e) (some n) t = elim (time_of d) [
  | fail e ↦ fail e
  | ok received ↦ ok (some (n +ℤ pos 1, counted limits received t n))
]
