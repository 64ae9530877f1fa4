-- ===== src/Sht/Tests.antt =====
-- A table of strings with a constant hash: all records are in one chain.
use mopher.Prelude.{ℕ, ◌*◌, ◌^◌, ◌<◌, ◌≡◌, refl, String, true, ◌&&◌, Option, none, some, arith, ltb}
use mopher.Prelude.Int.{ℤ, pos_part, ◌+ℤ◌}
use mopher.Ht.{Ht, Load, ht_init}
use mopher.Sht.{ShtRecord, sht_lookup, sht_remove, sht_insert, sht_replace}
use mopher.Sht.Map.{
  Represents, Inserted, update, init-Represents, sht_lookup-Represents, sht_remove-Represents,
  sht_insert-Represents, sht_replace-Represents,
}

abbrev hash : String → ℕ
hash key = 7

abbrev overloaded : Load
overloaded b r = ltb b (2 * pos_part r) && ltb b 1000000

overloaded-bounded : (b : ℕ) (r : ℤ) → overloaded b r ≡ true → b < 2 ^ 31
overloaded-bounded b r e = ground arith

abbrev empty : Ht (ShtRecord ℕ)
empty = ht_init 2

abbrev nothing : String → Option ℕ
nothing k = none

empty_map : Represents hash nothing empty
empty_map = init-Represents hash 2 (omega arith)

abbrev two : Ht (ShtRecord ℕ)
two = (sht_insert hash overloaded 1 (sht_insert hash overloaded 1 empty "foo" 10).1 "bar" 11).1

found : (sht_lookup hash two "foo" ≡ some 10) × (sht_lookup hash two "foobar" ≡ none)
unfolding sht_lookup sht_insert ◌+ℤ◌
found = (refl, refl)

foo-Represents :
    Inserted hash
      (nothing "foo")
      nothing
      empty
      "foo"
      10
      (sht_insert hash overloaded 1 empty "foo" 10)
foo-Represents =
    sht_insert-Represents hash overloaded overloaded-bounded 1 nothing empty "foo" 10 empty_map

abbrev one : Ht (ShtRecord ℕ)
one = (sht_insert hash overloaded 1 empty "foo" 10).1

abbrev foo : String → Option ℕ
foo = update hash nothing "foo" (some 10)

one_map : Represents hash foo one
one_map =
    (sht_insert-Represents hash overloaded overloaded-bounded 1 nothing empty "foo" 10 empty_map).1

sht_replace-Represents_example :
    ((sht_replace hash overloaded 1 one "foo" 12).0 ≡ true)
    × Represents hash
        (update hash foo "foo" (some 12))
        (sht_replace hash overloaded 1 one "foo" 12).1
sht_replace-Represents_example =
    sht_replace-Represents hash overloaded overloaded-bounded 1 foo one "foo" 12 one_map

sht_remove_sample : Represents hash (update hash foo "foo" none) (sht_remove hash one "foo")
sht_remove_sample = sht_remove-Represents hash foo one "foo" one_map

looked_up : sht_lookup hash one "foo" ≡ foo "foo"
looked_up = sht_lookup-Represents hash foo one "foo" one_map
