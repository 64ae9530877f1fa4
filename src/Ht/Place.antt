-- ===== src/Ht/Place.antt =====
-- Which bucket of a table (src/ht.c) a record belongs to, and writes to one bucket.
use mopher.Prelude.{
  ℕ, zero, suc, ◌%◌, ◌≤◌, ◌<◌, ◌≡◌, ◌≢◌, inl, inr, refl, sym, ◌∙◌, true, false, Option, none, some,
  List, [], ◌∷◌, ◌++◌, arith, Bool-cases, ==_iff, ◌==◌, if◌then◌else◌, length, get_or, set,
  replicate, length-set, length-replicate,
}
use mopher.Ht.{Hashing, Ht, ht_init, bucket_of, chain_at, chain_lookup, ht_lookup}

pub get_or-set :
    {A : Type 0} (xs : List A) (i j : ℕ) (v d : A)
    → i < length xs
    → get_or (set xs i v) j d ≡ (if j == i then v else get_or xs j d)
get_or-set [] i j v d h = absurd (omega arith)
get_or-set (x ∷ xs) zero zero v d h = refl
get_or-set (x ∷ xs) zero (suc j) v d h = ground arith
get_or-set (x ∷ xs) (suc i) zero v d h = ground arith
get_or-set (x ∷ xs) (suc i) (suc j) v d h =
    let e = get_or-set xs i j v d (omega arith) in rw e (ground arith)

pub get_or-replicate : {A : Type 0} (n i : ℕ) (a : A) → get_or (replicate n a) i a ≡ a
get_or-replicate zero i a = refl
get_or-replicate (suc n) zero a = refl
get_or-replicate (suc n) (suc i) a = get_or-replicate n i a

module _ {D : Type 0} (h : Hashing D) where
  open h use {ht_hash, ht_match, match_refl, match_sym, match_trans, match_hash}

  -- The records of a chain that match
  unfoldable pub hits : D → List D → List D
  hits q [] = []
  hits q (x ∷ xs) = if ht_match q x then x ∷ hits q xs else hits q xs

  pub hits-append : (q : D) (xs ys : List D) → hits q (xs ++ ys) ≡ hits q xs ++ hits q ys
  unfolding hits
  hits-append q [] ys = refl
  hits-append q (x ∷ xs) ys = let e = hits-append q xs ys in rw e (ground arith)

  pub match_iff : (q d x : D) → ht_match q d ≡ true → ht_match q x ≡ ht_match d x
  match_iff q d x m = elim (Bool-cases (ht_match d x)) [
    | inl y ↦ match_trans q d x m y ∙ sym y
    | inr n ↦ elim (Bool-cases (ht_match q x)) [
      | inl y ↦ absurd (apart (sym n ∙ match_trans d q x (match_sym q d m) y))
      | inr n' ↦ n' ∙ sym n
    ]
  ]
    where
      apart : false ≡ true → ⊥
      apart e = cc

  pub hits_same : (q d : D) (xs : List D) → ht_match q d ≡ true → hits q xs ≡ hits d xs
  unfolding hits
  hits_same q d [] m = refl
  hits_same q d (x ∷ xs) m = rw (match_iff q d x m, hits_same q d xs m) refl

  -- The table has its number of buckets, records that match stand in the bucket of their hash, and
  -- `f` is what it holds for a query: one record or none.
  pub record Holds (f : D → List D) (t : Ht D) : Type 0 where
    pub width : length t.ht_table ≡ t.ht_buckets
    pub some_buckets : 0 < t.ht_buckets
    pub placed : (q : D) (i : ℕ) → i ≢ bucket_of h t q → hits q (chain_at h t i) ≡ []
    pub reads : (q : D) → hits q (chain_at h t (bucket_of h t q)) ≡ f q
    pub unique : (q : D) → length (f q) ≤ 1

  -- The head of the hits
  abbrev pub first_of : List D → Option D
  first_of [] = none
  first_of (x ∷ xs) = some x

  pub lookup-hits : (q : D) (c : List D) → chain_lookup h q c ≡ first_of (hits q c)
  unfolding chain_lookup hits
  lookup-hits q [] = refl
  lookup-hits q (x ∷ xs) = let e = lookup-hits q xs in rw e (ground arith)

  pub Holds-lookup :
      {f : D → List D} {t : Ht D} (q : D) → Holds f t → ht_lookup h t q ≡ first_of (f q)
  unfolding ht_lookup
  Holds-lookup q w = rw (lookup-hits, w.reads q) refl

  pub none-empty : (f : D → List D) (d : D) → first_of (f d) ≡ none → f d ≡ []
  none-empty f d e = empty (f d) e
    where
      empty : (xs : List D) → first_of xs ≡ none → xs ≡ []
      empty [] e = refl
      empty (x ∷ xs) e = cc

  pub same-reads :
      {f : D → List D} {t : Ht D} (q d : D) → Holds f t → ht_match q d ≡ true → f q ≡ f d
  same-reads {f} {t} q d w m =
      sym (w.reads q)
      ∙ (hits_same q d (chain_at h t (bucket_of h t q)) m ∙ (rw (match_hash q d m) (w.reads d)))

  pub Holds-congr : {f g : D → List D} {t : Ht D} → Holds f t → ((q : D) → f q ≡ g q) → Holds g t
  Holds-congr w same = record {
    width = w.width;
    some_buckets = w.some_buckets;
    placed = w.placed;
    reads = λ q. w.reads q ∙ same q;
    unique = λ q. rw (sym (same q)) (w.unique q);
  }

  pub init-Holds : (n : ℕ) → 0 < n → Holds (λ q. []) (ht_init n)
  unfolding hits
  init-Holds n p = record {
    width = length-replicate n [];
    some_buckets = p;
    placed = λ q i a. rw (get_or-replicate {A = List D} n i []) refl;
    reads = λ q. rw (get_or-replicate {A = List D} n _ []) refl;
    unique = λ q. omega arith;
  }

  bucket-lt : (n : ℕ) (d : D) → 0 < n → ht_hash d % n < n
  bucket-lt n d p = omega arith

  -- A write to the bucket of `d` that changes what matches `d` only.
  pub record Rewrites (f g : D → List D) (d : D) (old new : List D) : Type 0 where
    pub others : (q : D) → ht_match q d ≡ false → (hits q new ≡ hits q old) × (g q ≡ f q)
    pub same : (q : D) → ht_match q d ≡ true → hits q new ≡ g q
    pub single : (q : D) → length (g q) ≤ 1

  module _ (f g : D → List D) (t t' : Ht D) (d : D) (new : List D) (w : Holds f t)
      (table : t'.ht_table ≡ set t.ht_table (bucket_of h t d) new)
      (buckets : t'.ht_buckets ≡ t.ht_buckets)
      (change : Rewrites f g d (chain_at h t (bucket_of h t d)) new) where
    chain_of : (i : ℕ) → chain_at h t' i ≡ (if i == bucket_of h t d then new else chain_at h t i)
    chain_of i =
        let inside : bucket_of h t d < length t.ht_table =
          rw w.width (bucket-lt t.ht_buckets d w.some_buckets) in
        rw table (get_or-set t.ht_table (bucket_of h t d) i new [] inside)

    home_same : (q : D) → ht_match q d ≡ true → bucket_of h t q ≡ bucket_of h t d
    home_same q m = rw (match_hash q d m) refl

    placed_there : (q : D) (i : ℕ) → i ≢ bucket_of h t q → hits q (chain_at h t' i) ≡ []
    placed_there q i away = rw (chain_of i) (elim (Bool-cases (i == bucket_of h t d)) [
      | inl y ↦ rw y (elim (Bool-cases (ht_match q d)) [
        | inl m ↦ absurd (away ((==_iff i _).0 y ∙ sym (home_same q m)))
        | inr n ↦ (change.others q n).0 ∙ (rw (sym ((==_iff i _).0 y)) (w.placed q i away))
      ])
      | inr n ↦ rw n (w.placed q i away)
    ])

    reads_there : (q : D) → hits q (chain_at h t' (bucket_of h t q)) ≡ g q
    reads_there q =
        rw (chain_of (bucket_of h t q)) (elim (Bool-cases (bucket_of h t q == bucket_of h t d)) [
          | inl y ↦ rw y (elim (Bool-cases (ht_match q d)) [
            | inl m ↦ change.same q m
            | inr n ↦
                (change.others q n).0
                ∙ (rw (sym ((==_iff (bucket_of h t q) _).0 y)) (w.reads q)
                    ∙ sym ((change.others q n).1))
          ])
          | inr n ↦ rw n (elim (Bool-cases (ht_match q d)) [
            | inl m ↦ absurd (differ n (home_same q m))
            | inr o ↦ w.reads q ∙ sym ((change.others q o).1)
          ])
        ])
      where
        differ : {a b : ℕ} → (a == b) ≡ false → a ≡ b → ⊥
        differ e e' = ground arith

    pub rewrite-Holds : Holds g t'
    rewrite-Holds = record {
      width = rw (table, buckets, length-set) w.width;
      some_buckets = rw buckets w.some_buckets;
      placed = λ q i away. placed_there q i (rw (sym buckets) away);
      reads = λ q. rw buckets (reads_there q);
      unique = change.single;
    }
