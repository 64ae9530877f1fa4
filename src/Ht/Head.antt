-- ===== src/Ht/Head.antt =====
-- What an insertion (src/ht.c) makes of the count of the records and of the bucket where a walk starts.
use mopher.Prelude.{
  ℕ, zero, suc, ◌*◌, ◌%◌, ◌^◌, ◌<◌, ◌≡◌, refl, sym, ap, ◌∙◌, Bool, true, false, ◌||◌, List, [], ◌∷◌,
  arith, Bool-cases, Option-cases, inl, inr, if◌then◌else◌, length, ◌==◌, ltb, length-set,
  length-replicate,
}
use mopher.Prelude.Int.{ℤ, pos, ◌+ℤ◌, eqb_ℤ}
use mopher.Ht.{
  Hashing, Ht, Load, ht_init, flatten, is_empty, bucket_of, chain_at, ht_lookup, place, insert_with,
  insert_all, ht_resize, grow, ht_insert,
}
use mopher.Ht.Place.{get_or-set}
use mopher.Ht.Walk.{IsWalkable, zero_count, some_count, none_anywhere, length-flatten-set}

pub plus_one : (r : ℤ) (n : ℕ) → r ≡ pos n → r +ℤ pos 1 ≡ pos (suc n)
unfolding ◌+ℤ◌
plus_one r n e = ground arith

module _ {D : Type 0} (h : Hashing D) where
  open h use {ht_hash}

  pub init-IsWalkable : (n : ℕ) → 0 < n → IsWalkable h (ht_init n)
  init-IsWalkable n p = record {
    width = length-replicate n [];
    some_buckets = p;
    counted = rw (nothing n) refl;
    before = λ i some_left b. absurd (omega (arith, nothing n));
    filled = λ some_left. absurd (omega (arith, nothing n));
  }
    where
      nothing : (n : ℕ) → length (flatten (ht_init {D = D} n).ht_table) ≡ 0
      nothing zero = refl
      nothing (suc n) = nothing n

  -- The head after an insertion
  abbrev new_head : Ht D → ℕ → ℕ
  new_head t bucket =
      if ltb bucket t.ht_head || eqb_ℤ t.ht_records (pos 0) then bucket else t.ht_head

  new_head-below :
      (t : Ht D) (bucket i : ℕ)
      → IsWalkable h t
      → i < new_head t bucket
      → ((i == bucket) ≡ false) × (chain_at h t i ≡ [])
  new_head-below t bucket i w b = elim (Bool-cases (eqb_ℤ t.ht_records (pos 0))) [
    | inl e ↦
        let below : i < bucket = at_bucket (ltb bucket t.ht_head) (rw e at b) in
        (ground arith, none_anywhere t.ht_table i (zero_count _ _ w.counted e))
    | inr e ↦
        let some_left : 0 < length (flatten t.ht_table) = some_count _ _ w.counted e in
        let (below_bucket, below_head) = in_table bucket t.ht_head (rw e at b) in
        (ground arith, w.before i some_left below_head)
  ]
    where
      at_bucket : (c : Bool) → i < (if c || true then bucket else t.ht_head) → i < bucket
      at_bucket true b = b
      at_bucket false b = b

      in_table :
          (bucket head : ℕ)
          → i < (if ltb bucket head || false then bucket else head)
          → (i < bucket) × (i < head)
      in_table bucket head b = ground arith

  new_head-filled :
      (t : Ht D) (bucket : ℕ) (d : D)
      → IsWalkable h t
      → is_empty (
          if new_head t bucket == bucket
          then d ∷ chain_at h t bucket
          else chain_at h t (new_head t bucket))
        ≡ false
  new_head-filled t bucket d w = elim (Bool-cases (new_head t bucket == bucket)) [
    | inl e ↦ rw e refl
    | inr e ↦ rw e (elim (Bool-cases (eqb_ℤ t.ht_records (pos 0))) [
      | inl z ↦ absurd (at_bucket (ltb bucket t.ht_head) (rw z at e))
      | inr z ↦
          let kept : new_head t bucket ≡ t.ht_head =
            rw z (old (ltb bucket t.ht_head) (rw z at e)) in
          rw kept (w.filled (some_count _ _ w.counted z))
    ])
  ]
    where
      at_bucket : (c : Bool) → ((if c || true then bucket else t.ht_head) == bucket) ≡ false → ⊥
      at_bucket true b = ground arith
      at_bucket false b = ground arith

      old :
          (c : Bool)
          → ((if c || false then bucket else t.ht_head) == bucket) ≡ false
          → (if c || false then bucket else t.ht_head) ≡ t.ht_head
      old true b = ground arith
      old false b = refl

  place-IsWalkable : (t : Ht D) (d : D) → IsWalkable h t → IsWalkable h (place h t d)
  unfolding place
  place-IsWalkable t d w =
      let bucket = bucket_of h t d in
      let inside : bucket < length t.ht_table =
        rw w.width (bucket-lt (ht_hash d) t.ht_buckets w.some_buckets) in
      let chain : (i : ℕ)
          → chain_at h (place h t d) i
            ≡ (if i == bucket then d ∷ chain_at h t bucket else chain_at h t i) =
        λ i. get_or-set t.ht_table bucket i (d ∷ chain_at h t bucket) [] inside in
      record {
        width = length-set t.ht_table bucket (d ∷ chain_at h t bucket) ∙ w.width;
        some_buckets = w.some_buckets;
        counted =
            plus_one _ _ w.counted ∙ ap pos (sym (length-flatten-set t.ht_table bucket d inside));
        before = λ i some_left b.
            let (apart, empty) = new_head-below t bucket i w b in rw (chain i) (rw apart empty);
        filled = λ some_left. rw (chain (new_head t bucket)) (new_head-filled t bucket d w);
      }
    where
      bucket-lt : (a n : ℕ) → 0 < n → a % n < n
      bucket-lt a n p = omega arith

  -- What happens to the load keeps a table walkable.
  abbrev Keeps : (Ht D → Ht D) → Type 0
  Keeps after = (t : Ht D) → IsWalkable h t → IsWalkable h (after t)

  insert_with-IsWalkable :
      (after : Ht D → Ht D) (t : Ht D) (d : D)
      → Keeps after
      → IsWalkable h t
      → IsWalkable h (insert_with h after t d).1
  unfolding insert_with
  insert_with-IsWalkable after t d keeps w = elim (Option-cases (ht_lookup h t d)) [
    | inl e ↦ rw (e, insert_with) (keeps (place h t d) (place-IsWalkable t d w))
    | inr (x, e) ↦ rw (e, insert_with) w
  ]

  insert_all-IsWalkable :
      (after : Ht D → Ht D) (xs : List D) (t : Ht D)
      → Keeps after
      → IsWalkable h t
      → IsWalkable h (insert_all h after t xs).1
  unfolding insert_all
  insert_all-IsWalkable after [] t keeps w = w
  insert_all-IsWalkable after (x ∷ xs) t keeps w =
      let w' = insert_with-IsWalkable after t x keeps w in
      elim (Bool-cases ((insert_with h after t x).0)) [
        | inl e ↦ rw e (insert_all-IsWalkable after xs (insert_with h after t x).1 keeps w')
        | inr e ↦ rw e w'
      ]

  resize-IsWalkable :
      (after : Ht D → Ht D) (t : Ht D)
      → Keeps after
      → t.ht_buckets < 2 ^ 31
      → IsWalkable h t
      → IsWalkable h (ht_resize h after t).1
  unfolding ht_resize
  resize-IsWalkable after t keeps fits w =
      let doubled : 0 < t.ht_buckets * 2 % 2 ^ 32 = omega (arith, w.some_buckets) in
      let new : Ht D = ht_init (t.ht_buckets * 2 % 2 ^ 32) in
      elim (Bool-cases ((insert_all h after new (flatten t.ht_table)).0)) [
        | inl e ↦
            rw e (
              insert_all-IsWalkable after (flatten t.ht_table) new keeps
                (init-IsWalkable _ doubled))
        | inr e ↦ rw e w
      ]

  module _ (overloaded : Load)
      (bounded : (b : ℕ) (r : ℤ) → overloaded b r ≡ true → b < 2 ^ 31) where
    grow-IsWalkable : (levels : ℕ) → Keeps (grow h overloaded levels)
    unfolding grow
    grow-IsWalkable zero t w = w
    grow-IsWalkable (suc levels) t w = elim (Bool-cases (overloaded t.ht_buckets t.ht_records)) [
      | inl full ↦ rw full (
          resize-IsWalkable (grow h overloaded levels) t (grow-IsWalkable levels) (bounded _ _ full)
            w)
      | inr light ↦ rw light w
    ]

    -- If a table is walkable, then it is so after `ht_insert`, which may succeed or not, with the resizes
    -- that it brings, as long as no table of 2^31 buckets is overloaded.
    pub ht_insert-IsWalkable :
        (levels : ℕ) (t : Ht D) (d : D)
        → IsWalkable h t
        → IsWalkable h (ht_insert h overloaded levels t d).1
    unfolding ht_insert
    ht_insert-IsWalkable levels t d w =
        insert_with-IsWalkable (grow h overloaded levels) t d (grow-IsWalkable levels) w
