-- ===== src/Ht/Levels.antt =====
-- How many levels of resizing an insertion (src/ht.c) takes.
use mopher.Prelude.{
  ℕ, zero, suc, ◌+◌, ◌*◌, ◌%◌, ◌^◌, ◌≤◌, ◌<◌, ◌≡◌, refl, true, false, List, [], ◌∷◌, arith,
  Option-cases, inl, inr, length, ap,
}
use mopher.Prelude.Int.{pos}
use mopher.Ht.{
  Hashing, Ht, Load, ht_init, flatten, bucket_of, ht_lookup, place, insert_with, insert_all,
  ht_resize, grow, ht_insert,
}
use mopher.Ht.Walk.{IsWalkable, length-flatten-set}
use mopher.Ht.Head.{plus_one}

module _ {D : Type 0} (h : Hashing D) (overloaded : Load)
    (two_fifths : (b r : ℕ) → 5 * r ≤ 2 * b → overloaded b (pos r) ≡ false) where
  open h use {ht_hash}

  grow-light :
      (n : ℕ) (t : Ht D) (r : ℕ)
      → t.ht_records ≡ pos r
      → 5 * r ≤ 2 * t.ht_buckets
      → grow h overloaded n t ≡ t
  unfolding grow
  grow-light zero t r e light = refl
  grow-light (suc n) t r e light = rw (e, grow) (rw (two_fifths t.ht_buckets r light) refl)

  abbrev same : Ht D → Ht D
  same t = t

  insert-light :
      (n : ℕ) (t : Ht D) (d : D) (r : ℕ)
      → t.ht_records ≡ pos r
      → 5 * suc r ≤ 2 * t.ht_buckets
      → insert_with h (grow h overloaded n) t d ≡ insert_with h same t d
  unfolding insert_with place
  insert-light n t d r e light = elim (Option-cases (ht_lookup h t d)) [
    | inl f ↦
        rw (f, insert_with)
          (ap (λ u. (true, u))
            (grow-light n (place h t d) (suc r) (plus_one t.ht_records r e) light))
    | inr (x, f) ↦ rw (f, insert_with) refl
  ]

  all-light :
      (n : ℕ) (xs : List D) (t : Ht D) (r : ℕ)
      → t.ht_records ≡ pos r
      → 5 * (r + length xs) ≤ 2 * t.ht_buckets
      → insert_all h (grow h overloaded n) t xs ≡ insert_all h same t xs
  unfolding insert_all insert_with place
  all-light n [] t r e light = refl
  all-light n (x ∷ xs) t r e light =
      rw (insert-light n t x r e (omega arith)) (elim (Option-cases (ht_lookup h t x)) [
        | inl f ↦
            rw (f, insert_with)
              (all-light n xs (place h t x) (suc r) (plus_one t.ht_records r e) (omega arith))
        | inr (y, f) ↦ rw (f, insert_with) refl
      ])

  resize-light :
      (n : ℕ) (t : Ht D)
      → 5 * length (flatten t.ht_table) ≤ 4 * t.ht_buckets
      → t.ht_buckets < 2 ^ 31
      → ht_resize h (grow h overloaded n) t ≡ ht_resize h same t
  unfolding ht_resize
  resize-light n t few fits =
      let light : 5 * (0 + length (flatten t.ht_table)) ≤ 2 * (t.ht_buckets * 2 % 2 ^ 32) =
        omega arith in
      rw (all-light n (flatten t.ht_table) (ht_init (t.ht_buckets * 2 % 2 ^ 32)) 0 refl light) refl

  -- If no table is overloaded up to two fifths of its buckets, an insertion resizes at most once: it
  -- is the same with one level of resizing and with any more. The table has the counters and the start
  -- of the walk that insertions make, ht_head being the first bucket that is not empty and ht_records
  -- the number of records, which a removal may undo; with the new record it has at most four records
  -- for five buckets, and it has fewer than 2^31 buckets.
  pub ht_insert-levels :
      (n : ℕ) (t : Ht D) (d : D)
      → IsWalkable h t
      → 5 * suc (length (flatten t.ht_table)) ≤ 4 * t.ht_buckets
      → t.ht_buckets < 2 ^ 31
      → ht_insert h overloaded (suc n) t d ≡ ht_insert h overloaded 1 t d
  unfolding ht_insert insert_with grow
  ht_insert-levels n t d w few fits =
      let inside : bucket_of h t d < length t.ht_table =
        rw w.width (bucket-lt (ht_hash d) t.ht_buckets w.some_buckets) in
      let size : 5 * length (flatten (place h t d).ht_table) ≤ 4 * t.ht_buckets =
        placed-size inside in
      elim (Option-cases (ht_lookup h t d)) [
        | inl f ↦
            rw (f, insert_with)
              (rw (resize-light n (place h t d) size fits, resize-light 0 (place h t d) size fits)
                refl)
        | inr (x, f) ↦ rw (f, insert_with) refl
      ]
    where
      bucket-lt : (a n : ℕ) → 0 < n → a % n < n
      bucket-lt a n p = omega arith

      placed-size :
          bucket_of h t d < length t.ht_table
          → 5 * length (flatten (place h t d).ht_table) ≤ 4 * t.ht_buckets
      placed-size inside =
          rw (length-flatten-set t.ht_table (bucket_of h t d) d inside) (omega arith)
