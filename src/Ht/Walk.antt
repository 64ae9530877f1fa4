-- ===== src/Ht/Walk.antt =====
-- The walk by `ht_start` and `ht_next`: which records it visits.
use mopher.Prelude.{
  drop, ℕ, zero, suc, ◌≤◌, ◌<◌, ◌≡◌, refl, sym, ◌∙◌, true, false, none, some, List, [], ◌∷◌, ◌++◌,
  arith, Bool-cases, inl, inr, length, get_or, set, length-append,
}
use mopher.Prelude.Int.{ℤ, pos, eqb_ℤ}
use mopher.Ht.{Hashing, Ht, Pos, flatten, is_empty, chain_at, next_bucket, ht_start, ht_next}

module _ {D : Type 0} where
  pub drop-tail :
      (n : ℕ) (bs : List (List D)) (c : List D) (cs : List (List D))
      → drop n bs ≡ c ∷ cs
      → drop (suc n) bs ≡ cs
  drop-tail zero [] c cs e = cc
  drop-tail zero (b ∷ bs) c cs e = cc
  drop-tail (suc n) [] c cs e = cc
  drop-tail (suc n) (b ∷ bs) c cs e = drop-tail n bs c cs e

  is_empty-eq : (c : List D) → is_empty c ≡ true → c ≡ []
  is_empty-eq [] e = refl
  is_empty-eq (x ∷ xs) e = cc

  flatten-skip :
      (bs : List (List D)) (n : ℕ)
      → ((i : ℕ) → i < n → get_or bs i [] ≡ [])
      → flatten bs ≡ get_or bs n [] ++ flatten (drop (suc n) bs)
  flatten-skip [] n h = refl
  flatten-skip (c ∷ cs) zero h = refl
  flatten-skip (c ∷ cs) (suc n) h =
      rw (h 0 (omega arith)) (flatten-skip cs n (λ i b. h (suc i) (omega arith)))

  pub none_anywhere : (bs : List (List D)) (i : ℕ) → length (flatten bs) ≡ 0 → get_or bs i [] ≡ []
  none_anywhere [] i e = refl
  none_anywhere ([] ∷ cs) zero e = refl
  none_anywhere ((x ∷ xs) ∷ cs) i e = absurd (omega arith)
  none_anywhere ([] ∷ cs) (suc i) e = none_anywhere cs i e

  pub length-flatten-set :
      (bs : List (List D)) (i : ℕ) (d : D)
      → i < length bs
      → length (flatten (set bs i (d ∷ get_or bs i []))) ≡ suc (length (flatten bs))
  length-flatten-set [] i d h = absurd (omega arith)
  length-flatten-set (c ∷ cs) zero d h = refl
  length-flatten-set (c ∷ cs) (suc i) d h =
      rw (length-append c (flatten (set cs i (d ∷ get_or cs i []))), length-append c (flatten cs))
        (omega (arith, length-flatten-set cs i d (omega arith)))

pub zero_count : (r : ℤ) (n : ℕ) → r ≡ pos n → eqb_ℤ r (pos 0) ≡ true → n ≡ 0
zero_count r n e z = ground arith

pub some_count : (r : ℤ) (n : ℕ) → r ≡ pos n → eqb_ℤ r (pos 0) ≡ false → 0 < n
some_count r n e z = ground arith

module _ {D : Type 0} (h : Hashing D) where
  -- The records from a position on
  abbrev pub remaining : Ht D → Pos D → List D
  remaining t (b, []) = []
  remaining t (b, x ∷ xs) = (x ∷ xs) ++ flatten (drop (suc b) t.ht_table)

  -- The records that so many calls of `ht_next` return
  unfoldable pub walk : ℕ → Ht D → Pos D → List D
  unfolding ht_next
  walk zero t p = []
  walk (suc n) t p =
      let (x, p') = ht_next h t p in
      let rest = walk n t p' in elim x [ none ↦ [] | some d ↦ d ∷ rest ]

  pub next_bucket-remaining :
      (t : Ht D) (i : ℕ) (cs : List (List D))
      → drop i t.ht_table ≡ cs
      → remaining t (next_bucket i cs) ≡ flatten cs
  next_bucket-remaining t i [] e = refl
  next_bucket-remaining t i ([] ∷ cs) e =
      next_bucket-remaining t (suc i) cs (drop-tail i t.ht_table [] cs e)
  next_bucket-remaining t i ((x ∷ xs) ∷ cs) e = rw (drop-tail i t.ht_table (x ∷ xs) cs e) refl

  walk-remaining :
      (n : ℕ) (t : Ht D) (p : Pos D) → length (remaining t p) ≤ n → walk n t p ≡ remaining t p
  unfolding walk ht_next
  walk-remaining zero t (b, []) e = refl
  walk-remaining zero t (b, x ∷ xs) e = absurd (omega arith)
  walk-remaining (suc n) t (b, []) e = refl
  walk-remaining (suc n) t (b, x ∷ []) e =
      let next = next_bucket-remaining t (suc b) (drop (suc b) t.ht_table) refl in
      rw
        (walk-remaining n t (next_bucket (suc b) (drop (suc b) t.ht_table)) (rw next (omega arith)))
        (rw next refl)
  walk-remaining (suc n) t (b, x ∷ y ∷ ys) e =
      rw (walk-remaining n t (b, y ∷ ys) (omega arith)) refl

  -- `ht_head` is the first bucket with a record, if there is one, and `ht_records` counts the records.
  pub record IsWalkable (t : Ht D) : Type 0 where
    pub width : length t.ht_table ≡ t.ht_buckets
    pub some_buckets : 0 < t.ht_buckets
    pub counted : t.ht_records ≡ pos (length (flatten t.ht_table))
    pub before : (i : ℕ) → 0 < length (flatten t.ht_table) → i < t.ht_head → chain_at h t i ≡ []
    pub filled : 0 < length (flatten t.ht_table) → is_empty (chain_at h t t.ht_head) ≡ false

  pub start-remaining : (t : Ht D) → IsWalkable t → remaining t (ht_start h t) ≡ flatten t.ht_table
  unfolding ht_start
  start-remaining t w = elim (Bool-cases (eqb_ℤ t.ht_records (pos 0))) [
    | inl e ↦ rw e (sym (no_length (flatten t.ht_table) (zero_count _ _ w.counted e)))
    | inr e ↦
        let some_left : 0 < length (flatten t.ht_table) = some_count _ _ w.counted e in
        rw e (
          at_head (chain_at h t t.ht_head) (w.filled some_left)
          ∙ sym (flatten-skip t.ht_table t.ht_head (λ i b. w.before i some_left b)))
  ]
    where
      no_length : (xs : List D) → length xs ≡ 0 → xs ≡ []
      no_length [] e = refl
      no_length (x ∷ xs) e = absurd (omega arith)

      at_head :
          (c : List D)
          → is_empty c ≡ false
          → remaining t (t.ht_head, c) ≡ c ++ flatten (drop (suc t.ht_head) t.ht_table)
      at_head [] e = cc
      at_head (x ∷ xs) e = refl

  -- From `ht_start` on, calls of `ht_next` return every record of the table once, in the order of the
  -- buckets, and then none.
  pub ht_next-flatten :
      (t : Ht D) (n : ℕ)
      → IsWalkable t
      → length (flatten t.ht_table) ≤ n
      → walk n t (ht_start h t) ≡ flatten t.ht_table
  ht_next-flatten t n w enough =
      let e = start-remaining t w in walk-remaining n t (ht_start h t) (rw e enough) ∙ e
