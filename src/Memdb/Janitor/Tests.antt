-- ===== src/Memdb/Janitor/Tests.antt =====
-- A database of two numbers, of which the second is the time when the record expires.
use mopher.Prelude.{
  ℕ, ◌<◌, ◌≡◌, refl, sym, Option, none, some, List, length, arith, Bool-cases, inl, inr,
}
use mopher.Prelude.Int.{ℤ, pos, ◌+ℤ◌, ◌-ℤ◌}
use mopher.Hash.{hash_one_at_a_time}
use mopher.Exec.{Result, ok, fail}
use mopher.Ht.{flatten, ht_init}
use mopher.Ht.Walk.{IsWalkable}
use mopher.Vp.{Record, copy_size}
use mopher.Vp.Keys.{key_left, begins}
use mopher.Vp.Round.{keys_of}
use mopher.Memdb.{Table, memdb_hashing, memdb_set}
use mopher.Memdb.Map.{Represents, update, bytes_eq, init-Represents, memdb_set-Represents}
use mopher.Memdb.Sample.{
  no_dump, overloaded, overloaded-bounded, pair, pairs, pair-IsOf, nothing, eight,
}
use mopher.Memdb.Janitor.{Database, vlist_record_get, read_long, dbt_janitor_cleanup_walk}
use mopher.Memdb.Janitor.Steps.{Expires, expired_count, unexpired}
use mopher.Memdb.Janitor.Cleanup.{dbt_janitor_cleanup_walk-Represents}

abbrev one : Table pairs
one = (memdb_set pairs no_dump overloaded 0 (ht_init 1) (pair 7 50)).1

abbrev at : ℕ → Database pairs
at time = record {
  dbt_handle = one;
  dbt_expire_field = "pairs_value";
  dbt_cleanup_schedule = pos time;
  dbt_cleanup_deleted = 0;
}

abbrev one_map : List ℕ → Option Record
one_map = update nothing (keys_of (pair 7 50).items) (some (pair 7 50))

one-Represents : Represents pairs no_dump overloaded one_map one
one-Represents =
    (memdb_set-Represents pairs no_dump overloaded overloaded-bounded 0 nothing (ht_init 1)
      (pair 7 50) (init-Represents pairs no_dump overloaded 1 (omega arith)) (pair-IsOf 7 50)).1

one-IsWalkable : IsWalkable (memdb_hashing pairs) one
unfolding memdb_set key_left hash_one_at_a_time begins ◌+ℤ◌ ◌-ℤ◌ copy_size
one-IsWalkable = record {
  width = refl;
  some_buckets = omega arith;
  counted = refl;
  before = λ i some_left b. absurd (omega arith);
  filled = λ some_left. refl;
}

abbrev number : Result (Option (List ℕ)) → ℤ
number (ok (some p)) = elim (read_long p) [ ok e ↦ e | fail f ↦ pos 0 ]
number _ = pos 0

abbrev expiry : Record → ℤ
unfolding read_long vlist_record_get
expiry r = number (vlist_record_get r "pairs_value")

fifty : Expires "pairs_value" (pair 7 50) (expiry (pair 7 50))
unfolding read_long vlist_record_get
fifty = (eight 50, (refl, refl))

one-Expires : (k : List ℕ) (r : Record) → one_map k ≡ some r → Expires "pairs_value" r (expiry r)
one-Expires k r e = elim (Bool-cases (bytes_eq k (keys_of (pair 7 50).items))) [
  | inl m ↦
      let same : some (pair 7 50) ≡ some r = rw m at e in
      let it : pair 7 50 ≡ r = cc in rw (sym it) fifty
  | inr n ↦ cc (rw n at e)
]

abbrev answer : Option (Result ℕ × Database pairs) → Option (Result ℕ)
answer none = none
answer (some (r, s)) = some r

-- The record expires after its time, not at it.
cleaned :
    (answer (dbt_janitor_cleanup_walk pairs no_dump overloaded 2 (at 51)) ≡ some (ok 1))
    × (answer (dbt_janitor_cleanup_walk pairs no_dump overloaded 2 (at 50)) ≡ some (ok 0))
unfolding dbt_janitor_cleanup_walk memdb_set key_left hash_one_at_a_time begins ◌+ℤ◌ ◌-ℤ◌ copy_size
cleaned = (refl, refl)

few : length (flatten one.ht_table) < 2
unfolding memdb_set key_left hash_one_at_a_time begins ◌+ℤ◌ ◌-ℤ◌ copy_size
few = omega arith

dbt_janitor_cleanup_walk-Represents_example :
    (s' : Database pairs) × ((dbt_janitor_cleanup_walk pairs no_dump overloaded 2 (at 60)
        ≡ some (ok (expired_count pairs expiry (pos 60) (flatten one.ht_table)), s'))
      × Represents pairs no_dump overloaded
          (λ k. unexpired expiry (pos 60) (one_map k))
          s'.dbt_handle)
dbt_janitor_cleanup_walk-Represents_example =
    dbt_janitor_cleanup_walk-Represents pairs no_dump overloaded expiry 2 one_map (at 60)
      one-Represents one-IsWalkable one-Expires few
