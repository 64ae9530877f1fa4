-- ===== src/Memdb/Tests.antt =====
-- A database of two numbers, the first of which is the key.
use mopher.Prelude.{◌≡◌, refl, none, some}
use mopher.Prelude.Int.{◌+ℤ◌, ◌-ℤ◌}
use mopher.Hash.{hash_one_at_a_time}
use mopher.Vp.Keys.{key_left, begins}
use mopher.Exec.{ok}
use mopher.Ht.{ht_init}
use mopher.Vp.Round.{keys_of}
use mopher.Memdb.{Table, memdb_open, memdb_get, memdb_set, memdb_del}
use mopher.Memdb.Sample.{no_dump, overloaded, overloaded-bounded, pair, pairs, pair-IsOf, nothing}
use mopher.Memdb.Map.{
  Represents, update, memdb_open-Represents, memdb_set-Represents, memdb_del-Represents,
}

abbrev filled : Table pairs
filled =
    (memdb_set pairs no_dump overloaded 1
      (memdb_set pairs no_dump overloaded 1 (ht_init 2) (pair 7 1)).1 (pair 8 2)).1

replaced :
    memdb_get pairs no_dump overloaded
      (memdb_set pairs no_dump overloaded 1 filled (pair 7 3)).1
      (pair 7 0)
    ≡ ok (some (pair 7 3))
unfolding memdb_get memdb_set key_left hash_one_at_a_time begins ◌+ℤ◌ ◌-ℤ◌
replaced = refl

empty_map : Represents pairs no_dump overloaded nothing (memdb_open pairs)
empty_map = memdb_open-Represents pairs no_dump overloaded

memdb_set-Represents_example :
    ((memdb_set pairs no_dump overloaded 1 (memdb_open pairs) (pair 7 1)).0 ≡ ok tt)
    × Represents pairs no_dump overloaded
        (update nothing (keys_of (pair 7 1).items) (some (pair 7 1)))
        (memdb_set pairs no_dump overloaded 1 (memdb_open pairs) (pair 7 1)).1
memdb_set-Represents_example =
    memdb_set-Represents pairs no_dump overloaded overloaded-bounded 1 nothing (memdb_open pairs)
      (pair 7 1) empty_map (pair-IsOf 7 1)

memdb_del-Represents_example :
    ((memdb_del pairs no_dump overloaded (memdb_open pairs) (pair 7 1)).0 ≡ ok tt)
    × Represents pairs no_dump overloaded
        (update nothing (keys_of (pair 7 1).items) none)
        (memdb_del pairs no_dump overloaded (memdb_open pairs) (pair 7 1)).1
memdb_del-Represents_example =
    memdb_del-Represents pairs no_dump overloaded nothing (memdb_open pairs) (pair 7 1) empty_map
      (pair-IsOf 7 1)
