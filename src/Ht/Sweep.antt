-- ===== src/Ht/Sweep.antt =====
-- A walk that removes records as it goes (src/ht.c): each record that a walk is at may be removed, and the
-- walk still visits every record.
use mopher.Prelude.{
  ℕ, zero, suc, ◌+◌, ◌%◌, ◌≤◌, ◌<◌, ◌≡◌, ◌≢◌, refl, sym, ◌∙◌, Bool, true, false, ◌||◌, List, [],
  ◌∷◌, ◌++◌, arith, Bool-cases, Option-cases, inl, inr, ◌==◌, ==_iff, if◌then◌else◌, length, get_or,
  set, drop,
}
use mopher.Prelude.Int.{pos, eqb_ℤ}
use mopher.Ht.{
  Hashing, Ht, Pos, flatten, bucket_of, chain_at, chain_lookup, chain_remove, next_bucket,
  ht_remove, ht_start, ht_next, unlink,
}
use mopher.Ht.Place.{hits, match_iff, Holds, Holds-congr}
use mopher.Ht.Insert.{hits-flatten}
use mopher.Ht.Remove.{minus, ht_remove-lookup}
use mopher.Ht.Walk.{drop-tail, remaining, next_bucket-remaining}

zero-add : (k : ℕ) → 0 + k ≡ k
zero-add k = omega arith

suc-add : (n k : ℕ) → suc n + k ≡ suc (n + k)
suc-add n k = omega arith

module _ {D : Type 0} where
  drop-set : (xs : List D) (i k : ℕ) (v : D) → i < k → drop k (set xs i v) ≡ drop k xs
  drop-set [] i zero v h = refl
  drop-set [] i (suc k) v h = refl
  drop-set (x ∷ xs) i zero v h = absurd (omega arith)
  drop-set (x ∷ xs) zero (suc k) v h = refl
  drop-set (x ∷ xs) (suc i) (suc k) v h = drop-set xs i k v (omega arith)

  get_or-drop :
      (n : ℕ) (bs : List (List D)) (k : ℕ) → get_or (drop n bs) k [] ≡ get_or bs (n + k) []
  get_or-drop zero bs k = rw (zero-add k) refl
  get_or-drop (suc n) [] k = refl
  get_or-drop (suc n) (b ∷ bs) k = rw (suc-add n k) (get_or-drop n bs k)

  abbrev pub All : (D → Type 0) → List D → Type 0
  All P [] = Unit
  All P (x ∷ xs) = P x × All P xs

module _ {D : Type 0} (h : Hashing D) where
  open h use {ht_hash, ht_match, match_refl}

  -- The records of the buckets from `i` on stand where their hashes say, for `n` buckets.
  abbrev pub AreHome : ℕ → ℕ → List (List D) → Type 0
  AreHome n i [] = Unit
  AreHome n i (c ∷ cs) = All (λ d. ht_hash d % n ≡ i) c × AreHome n (suc i) cs

  -- A position whose records stand where their hashes say
  abbrev pub IsHome : Ht D → Pos D → Type 0
  IsHome t (b, []) = Unit
  IsHome t (b, x ∷ xs) =
      All (λ d. ht_hash d % t.ht_buckets ≡ b) (x ∷ xs)
      × AreHome t.ht_buckets (suc b) (drop (suc b) t.ht_table)

  stands-buckets :
      {n m : ℕ} (b : ℕ) (c : List D)
      → n ≡ m
      → All (λ d. ht_hash d % m ≡ b) c
      → All (λ d. ht_hash d % n ≡ b) c
  stands-buckets b [] e h = tt
  stands-buckets b (x ∷ xs) e h = (rw e h.0, stands-buckets b xs e h.1)

  next_bucket-IsHome :
      (t : Ht D) (i : ℕ) (cs : List (List D))
      → drop i t.ht_table ≡ cs
      → AreHome t.ht_buckets i cs
      → IsHome t (next_bucket i cs)
  next_bucket-IsHome t i [] e home = tt
  next_bucket-IsHome t i ([] ∷ cs) e home =
      next_bucket-IsHome t (suc i) cs (drop-tail i t.ht_table [] cs e) home.1
  next_bucket-IsHome t i ((x ∷ xs) ∷ cs) e home =
      (home.0, rw (drop-tail i t.ht_table (x ∷ xs) cs e) home.1)

  ht_remove-buckets : (t : Ht D) (d : D) → (ht_remove h t d).ht_buckets ≡ t.ht_buckets
  unfolding ht_remove unlink
  ht_remove-buckets t d = elim (Option-cases (chain_lookup h d (chain_at h t (bucket_of h t d)))) [
    | inl e ↦ rw (e, ht_remove) refl
    | inr (x, e) ↦ rw (e, ht_remove) refl
  ]

  -- A removal leaves the buckets behind that of the record as they are.
  ht_remove-drop :
      (t : Ht D) (d : D) (k : ℕ)
      → bucket_of h t d < k
      → drop k (ht_remove h t d).ht_table ≡ drop k t.ht_table
  unfolding ht_remove unlink
  ht_remove-drop t d k above =
      elim (Option-cases (chain_lookup h d (chain_at h t (bucket_of h t d)))) [
        | inl e ↦ rw (e, ht_remove) refl
        | inr (x, e) ↦ rw (e, ht_remove) (drop-set t.ht_table (bucket_of h t d) k _ above)
      ]

  hits-tail : (q x : D) (xs : List D) → hits h q (x ∷ xs) ≡ [] → hits h q xs ≡ []
  unfolding hits
  hits-tail q x xs e = elim (Bool-cases (ht_match q x)) [
    | inl m ↦ cc (rw m at e)
    | inr o ↦ rw o at e
  ]

  chain-home :
      (n b : ℕ) (c : List D)
      → ((q : D) → b ≢ ht_hash q % n → hits h q c ≡ [])
      → All (λ d. ht_hash d % n ≡ b) c
  unfolding hits
  chain-home n b [] away = tt
  chain-home n b (x ∷ xs) away = (
    (elim (Bool-cases (b == ht_hash x % n)) [
      | inl y ↦ sym ((==_iff b _).0 y)
      | inr o ↦
          let none_here = away x (λ e. differ o e) in
          absurd (not_empty (rw (match_refl x, hits) at none_here))
    ]),
    chain-home n b xs (λ q o. hits-tail q x xs (away q o)),
  )
    where
      differ : (b == ht_hash x % n) ≡ false → b ≡ ht_hash x % n → ⊥
      differ o e = ground arith

      not_empty : {y : D} {ys : List D} → y ∷ ys ≡ [] → ⊥
      not_empty e = cc

  buckets-home :
      (n i : ℕ) (cs : List (List D))
      → ((q : D) (k : ℕ) → i + k ≢ ht_hash q % n → hits h q (get_or cs k []) ≡ [])
      → AreHome n i cs
  buckets-home n i [] away = tt
  buckets-home n i (c ∷ cs) away = (
    chain-home n i c (λ q o. away q 0 (λ e. o (omega arith))),
    buckets-home n (suc i) cs (λ q k o. away q (suc k) (λ e. o (omega arith))),
  )

  pub start-IsHome : {f : D → List D} (t : Ht D) → Holds h f t → IsHome t (ht_start h t)
  unfolding ht_start
  start-IsHome t w = elim (Bool-cases (eqb_ℤ t.ht_records (pos 0))) [
    | inl e ↦ rw e tt
    | inr e ↦ rw e (
        at_head (chain_at h t t.ht_head) (
          chain-home t.ht_buckets t.ht_head (chain_at h t t.ht_head)
            (λ q o. w.placed q t.ht_head o)))
  ]
    where
      behind : AreHome t.ht_buckets (suc t.ht_head) (drop (suc t.ht_head) t.ht_table)
      behind = buckets-home t.ht_buckets (suc t.ht_head) (drop (suc t.ht_head) t.ht_table) (λ q k o.
          rw (get_or-drop (suc t.ht_head) t.ht_table k) (w.placed q (suc t.ht_head + k) o))

      at_head :
          (c : List D) → All (λ d. ht_hash d % t.ht_buckets ≡ t.ht_head) c → IsHome t (t.ht_head, c)
      at_head [] e = tt
      at_head (x ∷ xs) e = (e, behind)

  chain_lookup-congr :
      (a b : D) (c : List D) → ht_match a b ≡ true → chain_lookup h a c ≡ chain_lookup h b c
  unfolding chain_lookup
  chain_lookup-congr a b [] m = refl
  chain_lookup-congr a b (x ∷ xs) m = rw (match_iff h a b x m, chain_lookup-congr a b xs m) refl

  chain_remove-congr :
      (a b : D) (c : List D) → ht_match a b ≡ true → chain_remove h a c ≡ chain_remove h b c
  unfolding chain_remove
  chain_remove-congr a b [] m = refl
  chain_remove-congr a b (x ∷ xs) m = rw (match_iff h a b x m, chain_remove-congr a b xs m) refl

  -- A removal by a record that matches
  pub ht_remove-congr :
      (t : Ht D) (a b : D) → ht_match a b ≡ true → ht_remove h t a ≡ ht_remove h t b
  unfolding ht_remove
  ht_remove-congr t a b m =
      let chain = chain_at h t (bucket_of h t b) in
      let found = chain_lookup-congr a b chain m in
      let rest = chain_remove-congr a b chain m in
      elim (Option-cases (chain_lookup h b chain)) [
        | inl e ↦ rw (h.match_hash a b m, found, e, ht_remove) refl
        | inr (x, e) ↦
            rw (h.match_hash a b m, found, e, ht_remove) (rw (h.match_hash a b m, rest) refl)
      ]

  -- What holds of the hits of every query holds of all records.
  pub All-hits : (P : D → Type 0) (xs : List D) → ((q : D) → All P (hits h q xs)) → All P xs
  unfolding hits
  All-hits P [] all = tt
  All-hits P (x ∷ xs) all =
      ((rw (match_refl x, hits) at (all x)).0, All-hits P xs (λ q. tail q (all q)))
    where
      tail : (q : D) → All P (hits h q (x ∷ xs)) → All P (hits h q xs)
      tail q a = elim (Bool-cases (ht_match q x)) [
        | inl m ↦ (rw (m, hits) at a).1
        | inr o ↦ rw (o, hits) at a
      ]

  pub hits-match : (q : D) (xs : List D) → All (λ d. ht_match q d ≡ true) (hits h q xs)
  unfolding hits
  hits-match q [] = tt
  hits-match q (x ∷ xs) = elim (Bool-cases (ht_match q x)) [
    | inl m ↦ rw (m, hits) (m, hits-match q xs)
    | inr o ↦ rw (o, hits) (hits-match q xs)
  ]

  module _ (stale : D → Bool) where
    -- The record that the walk is at is removed if it is stale.
    abbrev pub dispose : Ht D → D → Ht D
    dispose t d = if stale d then ht_remove h t d else t

    abbrev pub dispose_each : List D → Ht D → Ht D
    dispose_each [] t = t
    dispose_each (d ∷ ds) t = dispose_each ds (dispose t d)

    dispose-buckets : (t : Ht D) (d : D) → (dispose t d).ht_buckets ≡ t.ht_buckets
    dispose-buckets t d = elim (Bool-cases (stale d)) [
      | inl y ↦ rw y (ht_remove-buckets t d)
      | inr n ↦ rw n refl
    ]

    dispose-drop :
        (t : Ht D) (d : D) (k : ℕ)
        → bucket_of h t d < k
        → drop k (dispose t d).ht_table ≡ drop k t.ht_table
    dispose-drop t d k above = elim (Bool-cases (stale d)) [
      | inl y ↦ rw y (ht_remove-drop t d k above)
      | inr n ↦ rw n refl
    ]

    -- After a removal of the record that the walk is at, the walk goes on with the others.
    pub next-remaining :
        (t : Ht D) (b : ℕ) (x : D) (xs : List D)
        → IsHome t (b, x ∷ xs)
        → IsHome (dispose t x) (ht_next h t (b, x ∷ xs)).1
          × (remaining h (dispose t x) (ht_next h t (b, x ∷ xs)).1
              ≡ xs ++ flatten (drop (suc b) t.ht_table))
    unfolding ht_next
    next-remaining t b x [] home =
        let cs = drop (suc b) t.ht_table in
        let same : drop (suc b) (dispose t x).ht_table ≡ cs =
          dispose-drop t x (suc b) (omega (arith, home.0.0)) in
        (
          next_bucket-IsHome (dispose t x) (suc b) cs same (rw (dispose-buckets t x) home.1),
          next_bucket-remaining h (dispose t x) (suc b) cs same,
        )
    next-remaining t b x (y ∷ ys) home =
        let same : drop (suc b) (dispose t x).ht_table ≡ drop (suc b) t.ht_table =
          dispose-drop t x (suc b) (omega (arith, home.0.0)) in
        (
          (
            stands-buckets b (y ∷ ys) (dispose-buckets t x) home.0.1,
            rw (dispose-buckets t x, same) home.1,
          ),
          rw same refl,
        )

    -- What is left for a query after records were disposed of
    abbrev left : (D → List D) → List D → D → List D
    left f [] = f
    left f (x ∷ xs) = left (if stale x then minus h f x else f) xs

    dispose_each-Holds :
        (xs : List D) (f : D → List D) (t : Ht D)
        → Holds h f t
        → Holds h (left f xs) (dispose_each xs t)
    dispose_each-Holds [] f t w = w
    dispose_each-Holds (x ∷ xs) f t w =
        dispose_each-Holds xs (if stale x then minus h f x else f) (dispose t x)
          (elim (Bool-cases (stale x)) [
            | inl y ↦ rw y ((ht_remove-lookup h f t x w).0)
            | inr n ↦ rw n w
          ])

    -- A record that is not stale
    abbrev pub fresh : List D → List D
    fresh [] = []
    fresh (x ∷ xs) = if stale x then [] else x ∷ xs

    abbrev any_stale : List D → Bool
    any_stale [] = false
    any_stale (x ∷ xs) = stale x || any_stale xs

    left-hits :
        (xs : List D) (f : D → List D) (q : D)
        → left f xs q ≡ (if any_stale (hits h q xs) then [] else f q)
    unfolding hits
    left-hits [] f q = refl
    left-hits (x ∷ xs) f q = elim (Bool-cases (stale x)) [
      | inl y ↦ elim (Bool-cases (ht_match q x)) [
        | inl m ↦ rw (y, left-hits xs (minus h f x) q, m, y) (same (any_stale (hits h q xs)))
        | inr o ↦ rw (y, left-hits xs (minus h f x) q, o) refl
      ]
      | inr n ↦ elim (Bool-cases (ht_match q x)) [
        | inl m ↦ rw (n, left-hits xs f q, m, n) refl
        | inr o ↦ rw (n, left-hits xs f q, o) refl
      ]
    ]
      where
        same : (b : Bool) → (if◌then◌else◌ {A = List D} b [] []) ≡ []
        same true = refl
        same false = refl

    one_fresh : (c : List D) → length c ≤ 1 → (if any_stale c then [] else c) ≡ fresh c
    one_fresh [] e = refl
    one_fresh (x ∷ []) e = ground arith
    one_fresh (x ∷ y ∷ ys) e = absurd (omega arith)

    -- To dispose of the records of a table leaves those that are not stale.
    pub disposed-Holds :
        (f : D → List D) (t : Ht D)
        → Holds h f t
        → Holds h (λ q. fresh (f q)) (dispose_each (flatten t.ht_table) t)
    disposed-Holds f t w = Holds-congr h (dispose_each-Holds (flatten t.ht_table) f t w) (λ q.
        left-hits (flatten t.ht_table) f q
        ∙ (rw (hits-flatten h w q) (one_fresh (f q) (w.unique q))))
