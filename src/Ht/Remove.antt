-- ===== src/Ht/Remove.antt =====
-- What a table holds after a removal, and what an insertion and a removal make of the counters.
use mopher.Prelude.{
  ℕ, zero, suc, ◌≤◌, ◌<◌, ◌≡◌, refl, sym, ◌∙◌, true, false, none, some, List, [], ◌∷◌, arith,
  Bool-cases, Option-cases, inl, inr, if◌then◌else◌, length, get_or, set,
}
use mopher.Prelude.Int.{ℤ, pos, ◌+ℤ◌, ◌-ℤ◌, +ℤ_parts, -ℤ_parts, eq_of_parts}
use mopher.Ht.{
  Hashing, Ht, bucket_of, chain_at, chain_lookup, chain_remove, ht_lookup, ht_remove, place, unlink,
  is_empty, has_next, minus_if,
}
use mopher.Ht.Place.{
  hits, hits_same, match_iff, Holds, Holds-lookup, Holds-congr, first_of, rewrite-Holds, get_or-set,
  lookup-hits, same-reads, none-empty,
}

set-get_or : {A : Type 0} (xs : List A) (i : ℕ) (v d : A) → set (set xs i v) i (get_or xs i d) ≡ xs
set-get_or [] i v d = refl
set-get_or (x ∷ xs) zero v d = refl
set-get_or (x ∷ xs) (suc i) v d = rw (set-get_or xs i v d) refl

plus_minus : (a : ℤ) → (a +ℤ pos 1) -ℤ pos 1 ≡ a
plus_minus a = eq_of_parts _ a (omega (arith, +ℤ_parts a (pos 1), -ℤ_parts (a +ℤ pos 1) (pos 1)))

module _ {D : Type 0} (h : Hashing D) where
  open h use {ht_match, match_refl, match_sym, match_trans}

  -- What a table holds without a record
  abbrev pub minus : (D → List D) → D → D → List D
  minus f d q = if ht_match q d then [] else f q

  removed_other :
      (q d : D) (c : List D) → ht_match q d ≡ false → hits h q (chain_remove h d c) ≡ hits h q c
  unfolding hits chain_remove
  removed_other q d [] n = refl
  removed_other q d (x ∷ xs) n = elim (Bool-cases (ht_match d x)) [
    | inl y ↦
        let e : ht_match q x ≡ false = elim (Bool-cases (ht_match q x)) [
          | inl z ↦ absurd (apart (sym n ∙ match_trans q x d z (match_sym d x y)))
          | inr z ↦ z
        ] in
        rw (y, e) refl
    | inr y ↦ rw (y, removed_other q d xs n) refl
  ]
    where
      apart : false ≡ true → ⊥
      apart e = cc

  removed_same :
      (q d : D) (c : List D)
      → ht_match q d ≡ true
      → length (hits h d c) ≤ 1
      → hits h q (chain_remove h d c) ≡ []
  unfolding hits chain_remove
  removed_same q d [] m one = refl
  removed_same q d (x ∷ xs) m one = elim (Bool-cases (ht_match d x)) [
    | inl y ↦
        let bound : length (x ∷ hits h d xs) ≤ 1 = rw y at one in
        rw (y, hits_same h q d xs m) (nothing (hits h d xs) (omega (arith, bound)))
    | inr n ↦ rw (n, match_iff h q d x m, n) (removed_same q d xs m (rw n at one))
  ]
    where
      nothing : (ys : List D) → length ys ≤ 0 → ys ≡ []
      nothing [] e = refl
      nothing (y ∷ ys) e = absurd (omega arith)

  unlink-Holds :
      (f : D → List D) (t : Ht D) (d : D)
      → Holds h f t
      → Holds h (minus f d) (
          unlink h t
            (bucket_of h t d)
            (chain_remove h d (chain_at h t (bucket_of h t d)))
            (has_next (chain_at h t (bucket_of h t d))))
  unfolding unlink
  unlink-Holds f t d w =
      let chain = chain_at h t (bucket_of h t d) in
      rewrite-Holds h f (minus f d) t _ d (chain_remove h d chain) w refl refl (record {
        others = λ q n. (removed_other q d chain n, rw n refl);
        same = λ q m. rw m (removed_same q d chain m (rw (w.reads d) (w.unique d)));
        single = λ q. elim (Bool-cases (ht_match q d)) [
          | inl m ↦ rw m (omega arith)
          | inr n ↦ rw n (w.unique q)
        ];
      })

  remove-Holds :
      (f : D → List D) (t : Ht D) (d : D) → Holds h f t → Holds h (minus f d) (ht_remove h t d)
  unfolding ht_remove
  remove-Holds f t d w = elim (Option-cases (chain_lookup h d (chain_at h t (bucket_of h t d)))) [
    | inl e ↦
        let gone : f d ≡ [] =
          none-empty h f d
            (ap-reads ∙ (sym (lookup-hits h d (chain_at h t (bucket_of h t d))) ∙ e)) in
        rw (e, ht_remove)
          (Holds-congr h w λ q. elim (Bool-cases (ht_match q d)) [
            | inl m ↦ rw m (same-reads h q d w m ∙ gone)
            | inr n ↦ rw n refl
          ])
    | inr (x, e) ↦ rw (e, ht_remove) (unlink-Holds f t d w)
  ]
    where
      ap-reads : first_of h (f d) ≡ first_of h (hits h d (chain_at h t (bucket_of h t d)))
      ap-reads = rw (w.reads d) refl

  -- After a removal a lookup finds nothing for what matches the record, and what it found before for all
  -- else.
  pub ht_remove-lookup :
      (f : D → List D) (t : Ht D) (d : D)
      → Holds h f t
      → Holds h (minus f d) (ht_remove h t d)
        × ((q : D)
            → ht_lookup h (ht_remove h t d) q ≡ (if ht_match q d then none else ht_lookup h t q))
  ht_remove-lookup f t d w =
      let w' = remove-Holds f t d w in
      (w', λ q. Holds-lookup h q w' ∙ (first-minus q ∙ (rw (Holds-lookup h q w) refl)))
    where
      first-minus :
          (q : D) → first_of h (minus f d q) ≡ (if ht_match q d then none else first_of h (f q))
      first-minus q = ground arith

  ht_remove-head :
      (u : Ht D) (d : D) (c : List D)
      → chain_at h u (bucket_of h u d) ≡ d ∷ c
      → ht_remove h u d ≡ unlink h u (bucket_of h u d) c (has_next (d ∷ c))
  unfolding ht_remove chain_lookup chain_remove
  ht_remove-head u d c e =
      let found : chain_lookup h d (d ∷ c) ≡ some d = rw (match_refl d) refl in
      let left : chain_remove h d (d ∷ c) ≡ c = rw (match_refl d) refl in
      rw (e, ht_remove) (rw found (rw e (rw left refl)))

  -- To put a record at the head of a chain and to remove it gives the table and the number of records
  -- back, but if the chain was not empty, the number of collisions is one less than before.
  pub ht_remove-place :
      (t : Ht D) (d : D)
      → bucket_of h t d < length t.ht_table
      → ((ht_remove h (place h t d) d).ht_table ≡ t.ht_table)
        × ((ht_remove h (place h t d) d).ht_records ≡ t.ht_records)
        × ((ht_remove h (place h t d) d).ht_collisions ≡ (
            if is_empty (chain_at h t (bucket_of h t d))
            then t.ht_collisions
            else t.ht_collisions -ℤ pos 1))
  unfolding place unlink
  ht_remove-place t d inside =
      let bucket = bucket_of h t d in
      let chain : chain_at h (place h t d) bucket ≡ d ∷ chain_at h t bucket =
        get_or-set t.ht_table bucket bucket (d ∷ chain_at h t bucket) [] inside ∙ (ground arith) in
      rw (ht_remove-head (place h t d) d (chain_at h t bucket) chain) (
        set-get_or t.ht_table bucket (d ∷ chain_at h t bucket) [],
        plus_minus t.ht_records,
        counted (chain_at h t bucket) t.ht_collisions,
      )
    where
      counted :
          (c : List D) (n : ℤ)
          → minus_if h (has_next (d ∷ c)) (
              if is_empty c
              then (if is_empty c then n else n +ℤ pos 1)
              else (if is_empty c then n else n +ℤ pos 1) -ℤ pos 1)
            ≡ (if is_empty c then n else n -ℤ pos 1)
      counted [] n = refl
      counted (x ∷ xs) n = rw (plus_minus n) refl
