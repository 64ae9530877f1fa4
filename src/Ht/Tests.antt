-- ===== src/Ht/Tests.antt =====
-- Tables of numbers, where a number's last two digits are its key, and its last one its hash.
use mopher.Prelude.{
  ℕ, ◌*◌, ◌%◌, ◌^◌, ◌≤◌, ◌<◌, ◌≡◌, refl, true, false, ◌&&◌, none, some, [], ◌∷◌, arith, ==_iff,
  ◌==◌, ltb, if◌then◌else◌,
}
use mopher.Prelude.Int.{ℤ, pos, ◌-ℤ◌, ◌+ℤ◌, pos_part}
use mopher.Ht.{
  Hashing, Ht, Load, ht_init, flatten, is_empty, bucket_of, chain_at, ht_lookup, ht_insert,
  ht_remove, place, ht_start, ht_next,
}
use mopher.Ht.Place.{Holds, init-Holds}
use mopher.Ht.Insert.{Insertion, ht_insert-lookup}
use mopher.Ht.Remove.{minus, ht_remove-lookup, ht_remove-place}
use mopher.Ht.Walk.{IsWalkable, walk, ht_next-flatten}
use mopher.Ht.Head.{init-IsWalkable, ht_insert-IsWalkable}
use mopher.Ht.Levels.{ht_insert-levels}

same_key : (a b : ℕ) → ((a % 100 == b % 100) ≡ true) → a % 100 ≡ b % 100
same_key a b e = (==_iff (a % 100) (b % 100)).0 e

is_key : (a b : ℕ) → a % 100 ≡ b % 100 → (a % 100 == b % 100) ≡ true
is_key a b e = (==_iff (a % 100) (b % 100)).1 e

same_hash : (a b : ℕ) → a % 100 ≡ b % 100 → a % 10 ≡ b % 10
same_hash a b e = omega arith

abbrev numbers : Hashing ℕ
numbers = record {
  ht_hash = λ a. a % 10;
  ht_match = λ a b. a % 100 == b % 100;
  match_refl = λ a. is_key a a refl;
  match_sym = λ a b e. is_key b a (omega (arith, same_key a b e));
  match_trans = λ a b c e f. is_key a c (omega (arith, same_key a b e, same_key b c f));
  match_hash = λ a b e. same_hash a b (same_key a b e);
}

-- The load with exact fractions
abbrev overloaded : Load
overloaded b r = ltb b (2 * pos_part r) && ltb b 1000000

overloaded-bounded : (b : ℕ) (r : ℤ) → overloaded b r ≡ true → b < 2 ^ 31
overloaded-bounded b r e = ground arith

overloaded-two_fifths : (b r : ℕ) → 5 * r ≤ 2 * b → overloaded b (pos r) ≡ false
overloaded-two_fifths b r e = ground arith

abbrev empty : Ht ℕ
empty = ht_init 4

-- What a run of the model computes with
program : Unit {0}
unfolding ht_insert ht_lookup ht_remove place ht_start ht_next walk ◌+ℤ◌ ◌-ℤ◌
program = tt

abbrev insert : ℕ → Ht ℕ → Ht ℕ
insert d t = (ht_insert numbers overloaded 1 t d).1

-- The third record doubles the buckets.
resized :
    ((insert 313 (insert 206 (insert 105 empty))).ht_buckets ≡ 8)
    × (ht_lookup numbers (insert 313 (insert 206 (insert 105 empty))) 5 ≡ some 105)
    × (flatten (insert 313 (insert 206 (insert 105 empty))).ht_table ≡ 313 ∷ 105 ∷ 206 ∷ [])
unfolding program
resized = (refl, refl, refl)

duplicate : ht_insert numbers overloaded 1 (insert 105 empty) 305 ≡ (false, insert 105 empty)
unfolding program
duplicate = refl

-- `ht_remove` leaves `ht_head` at a bucket that it may have emptied: a walk then ends at once,
-- although the table has a record.
head_left_behind :
    (ht_lookup numbers (ht_remove numbers (insert 206 (insert 105 empty)) 105) 6 ≡ some 206)
    × (walk numbers 2
          (ht_remove numbers (insert 206 (insert 105 empty)) 105)
          (ht_start numbers (ht_remove numbers (insert 206 (insert 105 empty)) 105))
        ≡ [])
unfolding program
head_left_behind = (refl, refl)

nothing_held : Holds numbers (λ q. []) empty
nothing_held = init-Holds numbers 4 (omega arith)

ht_insert-lookup_example :
    Insertion numbers
      (ht_lookup numbers empty 105)
      (λ q. [])
      empty
      105
      (ht_insert numbers overloaded 1 empty 105)
ht_insert-lookup_example =
    ht_insert-lookup numbers overloaded overloaded-bounded 1 empty 105 (λ q. []) nothing_held

ht_remove-lookup_example :
    Holds numbers (minus numbers (λ q. []) 105) (ht_remove numbers empty 105)
    × ((q : ℕ)
        → ht_lookup numbers (ht_remove numbers empty 105) q
          ≡ (if q % 100 == 105 % 100 then none else ht_lookup numbers empty q))
ht_remove-lookup_example = ht_remove-lookup numbers (λ q. []) empty 105 nothing_held

-- A table with a record, and another that goes into the same bucket
abbrev one : Ht ℕ
one = place numbers empty 105

placed_and_removed :
    ((ht_remove numbers (place numbers one 201) 201).ht_table ≡ one.ht_table)
    × ((ht_remove numbers (place numbers one 201) 201).ht_records ≡ one.ht_records)
    × ((ht_remove numbers (place numbers one 201) 201).ht_collisions ≡ (
        if is_empty (chain_at numbers one (bucket_of numbers one 201))
        then one.ht_collisions
        else one.ht_collisions -ℤ pos 1))
unfolding place
placed_and_removed = ht_remove-place numbers one 201 (omega arith)

walkable : IsWalkable numbers empty
walkable = init-IsWalkable numbers 4 (omega arith)

abbrev filled : Ht ℕ
filled = insert 206 (insert 105 empty)

filled-IsWalkable : IsWalkable numbers filled
filled-IsWalkable =
    ht_insert-IsWalkable numbers overloaded overloaded-bounded 1 (insert 105 empty) 206
      (ht_insert-IsWalkable numbers overloaded overloaded-bounded 1 empty 105 walkable)

sample-IsWalkable : IsWalkable numbers (insert 105 empty)
sample-IsWalkable = ht_insert-IsWalkable numbers overloaded overloaded-bounded 1 empty 105 walkable

filled_walked : walk numbers 2 filled (ht_start numbers filled) ≡ flatten filled.ht_table
unfolding program
filled_walked = ht_next-flatten numbers filled 2 filled-IsWalkable (omega arith)

ht_insert-levels_example :
    ht_insert numbers overloaded 3 filled 313 ≡ ht_insert numbers overloaded 1 filled 313
unfolding program
ht_insert-levels_example =
    ht_insert-levels numbers overloaded overloaded-two_fifths 2 filled 313 filled-IsWalkable
      (omega arith) (omega arith)
