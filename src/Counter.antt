-- ===== src/Counter.antt =====
-- The counters of messages (src/modules/counter.c) in four tables: by relay, by origin, by origin and the
-- sender's domain, and by origin, sender and recipient. A table is the interface of a driver, which an
-- operation on it reads through `dbt_db_get_from_table`, `dbt_db_load_into_table` and `dbt_db_set` of src/dbt.c.
-- The two functions of src/dbt.c are for schemes whose keys are texts and whose values are numbers.
pub mod Scheme
pub mod Found
pub mod Update
pub mod Lookup
mod Tests
use mopher.Prelude.{
  ℕ, String, Bool, true, false, not, ◌&&◌, ◌||◌, ◌≡◌, Option, none, some, List, [], ◌∷◌, ◌==◌,
  str_eq, if◌then◌else◌,
}
use mopher.Prelude.Int.{ℤ, pos, negsuc, ◌+ℤ◌, ltb_ℤ, eqb_ℤ, to_int}
use mopher.Var.{Data, Vars, int, string}
use mopher.Vtable.{
  vtable_lookup, vtable_get, vtable_set_new, vtable_set_null, vtable_is_null, vtable_dereference,
}
use mopher.Exec.{Exec, Result, ok, fail, null_pointer, undefined, pure, ◌>>=◌}
use mopher.Stage.{Stage, is_envrcpt, is_eom}
use mopher.Action.{ActionType, acl_accept, acl_continue, acl_none}
use mopher.Counter.Scheme.{
  Counter, Tuple, name_of, keys, values, key_eq, Driver, Limits, minus_one,
  vlist_record_keys_missing, with_key, key_data, lookup_key, time_of, load_value, load_values,
  or_null, new_tuple, counted, renew, relay, origin, domain, penpal,
}

module _ (driver : Driver) where
  open driver use {Db, get, set}

  -- `none` is -1.
  unfoldable pub dbt_db_get_from_table : Counter → Vars → Db → Result (Option (Option Tuple))
  unfolding lookup_key
  dbt_db_get_from_table c m db = elim (lookup_key (keys c) m) [
    | fail e ↦ fail e
    | ok none ↦ ok none
    | ok (some key) ↦ ok (get db key)
  ]

  unfoldable pub dbt_db_load_into_table : Counter → Db → Exec Vars ℤ
  unfolding dbt_db_get_from_table load_values
  dbt_db_load_into_table c db m = elim (dbt_db_get_from_table c m db) [
    | fail e ↦ (fail e, m)
    | ok none ↦ (ok minus_one, m)
    | ok (some r) ↦ (ok (pos 0), load_values (values c (or_null r)) m)
  ]

  abbrev pub saved : ℤ → Bool × Db → Result ℤ × Db
  saved n (true, db) = (ok n, db)
  saved n (false, db) = (ok minus_one, db)

  pub record Databases : Type 0 where
    pub counter_relay : Db
    pub counter_origin : Db
    pub counter_domain : Db
    pub counter_penpal : Db

  abbrev pub db_of : Counter → Databases → Db
  db_of relay s = s.counter_relay
  db_of origin s = s.counter_origin
  db_of domain s = s.counter_domain
  db_of penpal s = s.counter_penpal

  abbrev pub set_db : Counter → Databases → Db → Databases
  set_db relay s db = record s { counter_relay = db }
  set_db origin s db = record s { counter_origin = db }
  set_db domain s db = record s { counter_domain = db }
  set_db penpal s db = record s { counter_penpal = db }

  -- The tests for NULL come first; then the symbol is loaded, also where it is ambiguous.
  abbrev count_recipients : String → Vars → Data → Result ℤ × Vars
  count_recipients name m d = elim (time_of d) [
    | fail e ↦ (fail e, m)
    | ok n ↦ (ok (pos 0), if eqb_ℤ n (pos 1) then m else vtable_set_null m name)
  ]

  -- What precedes the label `load`
  unfoldable pub before_load : Counter → Stage → String → Exec Vars ℤ
  unfolding is_envrcpt vtable_get vtable_set_null
  before_load penpal stage name m =
      if is_envrcpt stage then (ok (pos 0), m) else elim (vtable_get m "recipients") [
        | none ↦ (ok minus_one, m)
        | some d ↦ count_recipients name m d
      ]
  before_load c stage name m = (ok (pos 0), m)

  -- `strcmp` on the names
  unfoldable pub counter_named : String → Counter
  counter_named name =
      if str_eq name "counter_penpal"
      then penpal
      else if str_eq name "counter_origin"
      then origin
      else if str_eq name "counter_domain"
      then domain
      else relay

  abbrev pub unless_lost : Exec Vars ℤ → ℤ → Exec Vars ℤ
  unless_lost rest r = if eqb_ℤ r minus_one then pure minus_one else rest

  unfoldable pub counter_lookup : Databases → Stage → String → Exec Vars ℤ
  unfolding before_load counter_named dbt_db_load_into_table vtable_is_null vtable_set_null
  counter_lookup s stage name m =
      if vtable_is_null m "hostaddr_str"
      then (ok (pos 0), vtable_set_null (vtable_set_null m "counter_relay") "counter_penpal")
      else (before_load (counter_named name) stage name
            >>= unless_lost
                (dbt_db_load_into_table (counter_named name) (db_of (counter_named name) s)))
          m

  module _ (limits : Limits) (m : Vars) where
    -- After `vtable_dereference` has found the data of all names
    unfoldable pub save_new : List String → Exec Db ℤ
    unfolding lookup_key vtable_get
    save_new ks db = elim (lookup_key ks m) [
      | fail e ↦ (fail e, db)
      | ok none ↦ (ok minus_one, db)
      | ok (some key) ↦ elim (vtable_get m "received") [
        | none ↦ (ok minus_one, db)
        | some d ↦ elim (time_of d) [
          | fail e ↦ (fail e, db)
          | ok received ↦ saved (pos 0) (set db key (new_tuple limits received))
        ]
      ]
    ]

    unfoldable pub counter_add_key : String → Exec Db ℤ
    unfolding vtable_dereference save_new
    counter_add_key key db =
        if vtable_dereference m (key ∷ "received" ∷ []) == 2
        then save_new (key ∷ []) db
        else (ok minus_one, db)

    unfoldable pub counter_add_relay : Exec Db ℤ
    unfolding counter_add_key
    counter_add_relay = counter_add_key "hostaddr_str"

    unfoldable pub counter_add_origin : Exec Db ℤ
    unfolding counter_add_key
    counter_add_origin = counter_add_key "origin"

    unfoldable pub counter_add_domain : Exec Db ℤ
    unfolding vtable_dereference save_new
    counter_add_domain db =
        if vtable_dereference m ("origin" ∷ "envfrom_domain" ∷ "received" ∷ []) == 3
        then save_new ("origin" ∷ "envfrom_domain" ∷ []) db
        else (ok minus_one, db)

    unfoldable pub counter_add_penpal : Exec Db ℤ
    unfolding vtable_dereference save_new
    counter_add_penpal db =
        if vtable_dereference m ("origin" ∷ "envfrom_addr" ∷ "envrcpt_addr" ∷ "received" ∷ []) == 4
        then save_new ("origin" ∷ "envfrom_addr" ∷ "envrcpt_addr" ∷ []) db
        else (ok minus_one, db)

    -- A record that was found; it is stored under its own key. The count is returned as an `int`.
    unfoldable pub count_one_more : List String → Tuple → Exec Db ℤ
    unfolding renew vtable_get to_int
    count_one_more key t db = elim (vtable_get m "received") [
      | none ↦ (ok minus_one, db)
      | some d ↦ elim (renew limits d t.updated t.expire t.count t) [
        | fail e ↦ (fail e, db)
        | ok none ↦ (ok minus_one, db)
        | ok (some (n, t')) ↦ saved (to_int n) (set db key t')
      ]
    ]

    abbrev pub stored_key : Counter → List String
    stored_key c = elim (lookup_key (keys c) m) [ ok (some key) ↦ key | _ ↦ [] ]

    -- The names of the fields fit into KEYLEN bytes.
    unfoldable pub counter_update_record : Counter → Exec Db ℤ → Exec Db ℤ
    unfolding vlist_record_keys_missing dbt_db_get_from_table count_one_more lookup_key
    counter_update_record c add db =
        if vlist_record_keys_missing (keys c) m
        then (ok (pos 0), db)
        else elim (dbt_db_get_from_table c m db) [
          | fail e ↦ (fail e, db)
          | ok none ↦ (ok minus_one, db)
          | ok (some none) ↦ add db
          | ok (some (some t)) ↦ count_one_more (stored_key c) t db
        ]

    abbrev pub in_table : Counter → Exec Db ℤ → Exec Databases ℤ
    in_table c f s = let (r, db) = f (db_of c s) in (r, set_db c s db)

    abbrev pub unless_failed : Exec Databases ℤ → ℤ → Exec Databases ℤ
    unless_failed rest count = if eqb_ℤ count minus_one then pure minus_one else rest

    abbrev pub is_counted : Stage → ActionType → Bool
    is_counted stage acl_accept = true
    is_counted stage acl_continue = is_eom stage
    is_counted stage acl_none = is_eom stage
    is_counted stage _ = false

    unfoldable pub counter_update : Stage → ActionType → Exec Databases ℤ
    unfolding counter_update_record counter_add_relay counter_add_origin counter_add_domain
        counter_add_penpal vtable_is_null is_eom
    counter_update stage action =
        if not (is_counted stage action)
        then pure (pos 0)
        else if vtable_is_null m "hostaddr_str"
        then pure (pos 0)
        else do
          r ← in_table relay (counter_update_record relay counter_add_relay)
          unless_failed
              (do
                r ← in_table origin (counter_update_record origin counter_add_origin)
                unless_failed
                    (do
                      r ← in_table domain (counter_update_record domain counter_add_domain)
                      unless_failed
                          (do
                            r ← in_table penpal (counter_update_record penpal counter_add_penpal)
                            unless_failed (pure (pos 0)) r)
                          r)
                    r)
              r
