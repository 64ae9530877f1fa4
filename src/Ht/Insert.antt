-- ===== src/Ht/Insert.antt =====
-- What a table holds after an insertion, with the resizes that it brings.
use mopher.Prelude.{
  Bool, Option, ℕ, zero, suc, ◌+◌, ◌*◌, ◌%◌, ◌^◌, ◌≤◌, ◌<◌, ◌≡◌, ◌≢◌, refl, sym, ◌∙◌, true, false,
  none, some, List, [], ◌∷◌, ◌++◌, arith, Bool-cases, Option-cases, inl, inr, if◌then◌else◌, length,
  get_or,
}
use mopher.Prelude.Int.{ℤ}
use mopher.Ht.{
  Hashing, Ht, flatten, bucket_of, chain_at, ht_lookup, place, insert_with, insert_all, ht_resize,
  grow, ht_insert, Load,
}
use mopher.Ht.Place.{
  hits, hits-append, Holds, Holds-lookup, Holds-congr, none-empty, same-reads, first_of, init-Holds,
  rewrite-Holds,
}

module _ {D : Type 0} (h : Hashing D) where
  open h use {ht_match, match_refl}

  -- What a table holds with one more record
  abbrev pub plus : (D → List D) → D → D → List D
  plus f d q = if ht_match q d then d ∷ f q else f q

  place-Holds :
      {f : D → List D} {t : Ht D} (d : D)
      → Holds h f t
      → f d ≡ []
      → Holds h (plus f d) (place h t d)
  unfolding place hits
  place-Holds {f} {t} d w fresh =
      rewrite-Holds h f (plus f d) t (place h t d) d (d ∷ chain_at h t (bucket_of h t d)) w refl
        refl
        (record {
          others = λ q n. (rw n refl, rw n refl);
          same = λ q m. rw (m) (rw (sym (w.reads q), h.match_hash q d m) refl);
          single = λ q. elim (Bool-cases (ht_match q d)) [
            | inl m ↦ rw m (rw (same-reads h q d w m, fresh) (omega arith))
            | inr n ↦ rw n (w.unique q)
          ];
        })

  -- What happens to the load keeps what the table holds.
  abbrev Keeps : (Ht D → Ht D) → Type 0
  Keeps after = (f : D → List D) (t : Ht D) → Holds h f t → Holds h f (after t)

  insert_with-Holds :
      {f : D → List D} {t : Ht D} (after : Ht D → Ht D) (d : D)
      → Keeps after
      → Holds h f t
      → f d ≡ []
      → ((insert_with h after t d).0 ≡ true) × Holds h (plus f d) (insert_with h after t d).1
  unfolding insert_with
  insert_with-Holds {f} {t} after d keeps w fresh =
      let absent : ht_lookup h t d ≡ none = rw (Holds-lookup h d w, fresh) refl in
      rw (absent, insert_with) (refl, keeps (plus f d) (place h t d) (place-Holds d w fresh))

  -- Records that can be inserted one after another
  abbrev AreNew : (D → List D) → List D → Type 0
  AreNew f xs = (q : D) → length (hits h q xs) + length (f q) ≤ 1

  no_length : (xs : List D) → length xs ≤ 0 → xs ≡ []
  no_length [] e = refl
  no_length (x ∷ xs) e = absurd (omega arith)

  AreNew-head : (f : D → List D) (x : D) (xs : List D) → AreNew f (x ∷ xs) → f x ≡ []
  unfolding hits
  AreNew-head f x xs new =
      let here : length (x ∷ hits h x xs) + length (f x) ≤ 1 = rw (match_refl x) at (new x) in
      no_length (f x) (omega (arith, here))

  AreNew-tail : (f : D → List D) (x : D) (xs : List D) → AreNew f (x ∷ xs) → AreNew (plus f x) xs
  unfolding hits
  AreNew-tail f x xs new q = elim (Bool-cases (ht_match q x)) [
    | inl m ↦ rw m (omega (arith, rw m at (new q)))
    | inr n ↦ rw n (rw n at (new q))
  ]

  append_nil : (xs : List D) → xs ++ [] ≡ xs
  append_nil [] = refl
  append_nil (x ∷ xs) = rw (append_nil xs) refl

  all-reads :
      (f : D → List D) (x : D) (xs : List D) (q : D)
      → AreNew f (x ∷ xs)
      → hits h q xs ++ plus f x q ≡ hits h q (x ∷ xs) ++ f q
  unfolding hits
  all-reads f x xs q new = elim (Bool-cases (ht_match q x)) [
    | inl m ↦
        let bound : length (x ∷ hits h q xs) + length (f q) ≤ 1 = rw m at (new q) in
        rw (m, no_length (hits h q xs) (omega (arith, bound))) refl
    | inr n ↦ rw n refl
  ]

  insert_all-Holds :
      (after : Ht D → Ht D) (xs : List D) (f : D → List D) (t : Ht D)
      → Keeps after
      → Holds h f t
      → AreNew f xs
      → ((insert_all h after t xs).0 ≡ true)
        × Holds h (λ q. hits h q xs ++ f q) (insert_all h after t xs).1
  unfolding insert_all hits
  insert_all-Holds after [] f t keeps w new = (refl, w)
  insert_all-Holds after (x ∷ xs) f t keeps w new =
      let (done, w') = insert_with-Holds after x keeps w (AreNew-head f x xs new) in
      let (rest, w'') = insert_all-Holds after xs (plus f x) _ keeps w' (AreNew-tail f x xs new) in
      rw done (rest, Holds-congr h w'' (λ q. all-reads f x xs q new))

  flatten_only :
      (q : D) (bs : List (List D)) (j : ℕ)
      → ((i : ℕ) → i ≢ j → hits h q (get_or bs i []) ≡ [])
      → hits h q (flatten bs) ≡ hits h q (get_or bs j [])
  unfolding hits
  flatten_only q [] j away = refl
  flatten_only q (c ∷ cs) zero away =
      let e : hits h q c ++ hits h q (flatten cs) ≡ hits h q c =
        rw (flatten_none q cs (λ i. away (suc i) (omega arith))) (append_nil (hits h q c)) in
      hits-append h q c (flatten cs) ∙ e
    where
      flatten_none :
          (q : D) (bs : List (List D))
          → ((i : ℕ) → hits h q (get_or bs i []) ≡ [])
          → hits h q (flatten bs) ≡ []
      flatten_none q [] away = refl
      flatten_none q (c ∷ cs) away =
          hits-append h q c (flatten cs) ∙ (rw (away 0, flatten_none q cs (λ i. away (suc i))) refl)
  flatten_only q (c ∷ cs) (suc j) away =
      let here : hits h q c ≡ [] = away 0 (omega arith) in
      hits-append h q c (flatten cs)
      ∙ (rw here (flatten_only q cs j (λ i n. away (suc i) (omega arith))))

  pub hits-flatten :
      {f : D → List D} {t : Ht D} → Holds h f t → (q : D) → hits h q (flatten t.ht_table) ≡ f q
  hits-flatten {f} {t} w q = flatten_only q t.ht_table (bucket_of h t q) (w.placed q) ∙ w.reads q

  resize-Holds :
      {f : D → List D} {t : Ht D} (after : Ht D → Ht D)
      → Keeps after
      → Holds h f t
      → t.ht_buckets < 2 ^ 31
      → ((ht_resize h after t).0 ≡ true) × Holds h f (ht_resize h after t).1
  unfolding ht_resize
  resize-Holds {f} {t} after keeps w fits =
      let all : (q : D) → hits h q (flatten t.ht_table) ≡ f q = hits-flatten w in
      let doubled : 0 < t.ht_buckets * 2 % 2 ^ 32 = omega (arith, w.some_buckets) in
      let (done, w') =
        insert_all-Holds after (flatten t.ht_table) (λ q. []) _ keeps (init-Holds h _ doubled)
          (λ q. rw (all q) (omega (arith, w.unique q))) in
      rw done (refl, Holds-congr h w' (λ q. append_nil (hits h q (flatten t.ht_table)) ∙ all q))

  -- The result of an insertion into a table, by what a lookup finds before
  abbrev pub Insertion : Option D → (D → List D) → Ht D → D → Bool × Ht D → Type 0
  Insertion none f t d r =
      (r.0 ≡ true)
      × Holds h (plus f d) r.1
      × ((q : D) → ht_lookup h r.1 q ≡ (if ht_match q d then some d else ht_lookup h t q))
  Insertion (some x) f t d r = r ≡ (false, t)

  module _ (overloaded : Load)
      (bounded : (b : ℕ) (r : ℤ) → overloaded b r ≡ true → b < 2 ^ 31) where
    grow-Holds : (levels : ℕ) → Keeps (grow h overloaded levels)
    unfolding grow
    grow-Holds zero f t w = w
    grow-Holds (suc levels) f t w = elim (Bool-cases (overloaded t.ht_buckets t.ht_records)) [
      | inl full ↦
          rw full
            ((resize-Holds (grow h overloaded levels) (grow-Holds levels) w (bounded _ _ full)).1)
      | inr light ↦ rw light w
    ]

    plus-first :
        (f : D → List D) (d q : D)
        → first_of h (plus f d q) ≡ (if ht_match q d then some d else first_of h (f q))
    plus-first f d q = ground arith

    pub ht_insert-fresh :
        (levels : ℕ) (t : Ht D) (d : D) (f : D → List D)
        → Holds h f t
        → ht_lookup h t d ≡ none
        → Insertion none f t d (ht_insert h overloaded levels t d)
    unfolding ht_insert
    ht_insert-fresh levels t d f w absent =
        let (done, w') =
          insert_with-Holds (grow h overloaded levels) d (grow-Holds levels) w
            (none-empty h f d (sym (Holds-lookup h d w) ∙ absent)) in
        (done, w', λ q. Holds-lookup h q w' ∙ (plus-first f d q ∙ (rw (Holds-lookup h q w) refl)))

    pub ht_insert-known :
        (levels : ℕ) (t : Ht D) (d x : D)
        → ht_lookup h t d ≡ some x
        → ht_insert h overloaded levels t d ≡ (false, t)
    unfolding ht_insert insert_with
    ht_insert-known levels t d x e = rw (e, insert_with) refl

    -- By what a lookup finds before: an insertion of a record that no other matches succeeds, and after it,
    -- with the resizes that it brings, a lookup finds the record for all that match it, and what it found
    -- before for the others. A record that one matches is refused, and nothing changes.
    pub ht_insert-lookup :
        (levels : ℕ) (t : Ht D) (d : D) (f : D → List D)
        → Holds h f t
        → Insertion (ht_lookup h t d) f t d (ht_insert h overloaded levels t d)
    ht_insert-lookup levels t d f w = elim (Option-cases (ht_lookup h t d)) [
      | inl e ↦ rw e (ht_insert-fresh levels t d f w e)
      | inr (x, e) ↦ rw e (ht_insert-known levels t d x e)
    ]
