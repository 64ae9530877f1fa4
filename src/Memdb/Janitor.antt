-- ===== src/Memdb/Janitor.antt =====
-- The cleanup of a database in memory by its janitor (src/dbt.c): `dbt_janitor_cleanup_walk` with
-- `memdb_walk`, and `dbt_common_validate` as the table's test of a record. Locks are left out, and the
-- driver has no `dd_sync`.
pub mod Steps
pub mod Cleanup
mod Tests
use mopher.Prelude.{
  ℕ, zero, suc, ◌+◌, ◌-◌, ◌^◌, String, Bool, true, false, Option, none, some, List, [], ◌∷◌, str_eq,
  ltb, leb, if◌then◌else◌, length, take,
}
use mopher.Prelude.Int.{ℤ, pos, negsuc, ltb_ℤ}
use mopher.Exec.{Fault, Result, ok, fail, error, null_pointer, undefined, exit}
use mopher.Ht.{Load}
use mopher.Vp.{Item, item, Record, little_endian, ◌>>=◌}
use mopher.Memdb.{Table, memdb_del, memdb_walk}

-- What of `dbt_t` the cleanup reads and writes
pub record Database (scheme : Record) : Type 0 where
  pub dbt_handle : Table scheme
  pub dbt_expire_field : String
  pub dbt_cleanup_schedule : ℤ
  pub dbt_cleanup_deleted : ℕ

-- `strcmp` reads the names.
unfoldable pub vlist_record_lookup : List Item → String → Result (Option Item)
vlist_record_lookup [] key = ok none
vlist_record_lookup (item t none is_key d ∷ items) key = fail null_pointer
vlist_record_lookup (item t (some name) is_key d ∷ items) key =
    if str_eq name key
    then ok (some (item t (some name) is_key d))
    else vlist_record_lookup items key

abbrev data_of : Option Item → Option (List ℕ)
data_of none = none
data_of (some (item t name is_key d)) = d

unfoldable pub vlist_record_get : Record → String → Result (Option (List ℕ))
unfolding vlist_record_lookup
vlist_record_get r key = do i ← vlist_record_lookup r.items key; ok (data_of i)

abbrev two_complement : ℕ → ℤ
two_complement n = if ltb n (2 ^ 63) then pos n else negsuc (2 ^ 64 - 1 - n)

-- `*expire`, a `long`
unfoldable pub read_long : List ℕ → Result ℤ
unfolding little_endian
read_long p =
    if leb 8 (length p) then ok (two_complement (little_endian (take 8 p))) else fail undefined

-- A record without an expiry ends the process.
unfoldable pub dbt_common_validate : ℤ → String → Record → Result Bool
unfolding vlist_record_get read_long
dbt_common_validate schedule field r = do
  expire ← vlist_record_get r field
  elim expire [
    | none ↦ fail exit
    | some p ↦ read_long p >>= λ e. ok (if ltb_ℤ e schedule then false else true)
  ]

module _ (scheme : Record) (var_dump_data : List ℕ → Option (List ℕ)) (overloaded : Load) where
  abbrev pub counted :
      Database scheme → Result (Unit {0}) × Table scheme → Result (Unit {0}) × Database scheme
  counted s (ok u, t) =
      (ok tt, record s { dbt_handle = t; dbt_cleanup_deleted = suc s.dbt_cleanup_deleted })
  counted s (fail e, t) = (fail e, record s { dbt_handle = t })

  unfoldable pub dbt_janitor_validate :
      Database scheme → Record → Result (Unit {0}) × Database scheme
  unfolding dbt_common_validate memdb_del
  dbt_janitor_validate s r =
      elim (dbt_common_validate s.dbt_cleanup_schedule s.dbt_expire_field r) [
        | fail e ↦ (fail e, s)
        | ok true ↦ (ok tt, s)
        | ok false ↦ counted s (memdb_del scheme var_dump_data overloaded s.dbt_handle r)
      ]

  abbrev pub reported :
      Option (Result (Unit {0}) × Database scheme) → Option (Result ℕ × Database scheme)
  reported none = none
  reported (some (ok u, s)) = some (ok s.dbt_cleanup_deleted, s)
  reported (some (fail e, s)) = some (fail e, s)

  -- The number of records that were deleted; the outer `none` is no fuel.
  unfoldable pub dbt_janitor_cleanup_walk :
      ℕ → Database scheme → Option (Result ℕ × Database scheme)
  unfolding dbt_janitor_validate memdb_walk
  dbt_janitor_cleanup_walk n s = reported (
      memdb_walk scheme (λ (s : Database scheme). s.dbt_handle) dbt_janitor_validate n
        (record s { dbt_cleanup_deleted = 0 }))
