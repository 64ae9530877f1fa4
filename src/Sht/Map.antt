-- ===== src/Sht/Map.antt =====
-- The map from strings that a table by string (src/sht.c) stands for, and what each operation makes of it.
use mopher.Prelude.{
  Bool, ℕ, ◌^◌, ◌<◌, ◌≡◌, refl, sym, ap, ◌∙◌, String, true, false, Option, none, some, List, [],
  str_eq, eq_iff, arith, Bool-cases, Option-cases, inl, inr, if◌then◌else◌,
}
use mopher.Prelude.Int.{ℤ}
use mopher.Ht.{Hashing, Ht, Load, ht_init, ht_lookup, ht_insert, ht_remove}
use mopher.Ht.Place.{Holds, Holds-lookup, first_of, same-reads, init-Holds}
use mopher.Ht.Insert.{plus, ht_insert-fresh, ht_insert-known}
use mopher.Ht.Remove.{minus, ht_remove-lookup}
use mopher.Sht.{ShtRecord, sht_hashing, query, sht_lookup, sht_remove, sht_insert, sht_replace}

module _ {V : Type 0} (hash : String → ℕ) where
  abbrev sht : Hashing (ShtRecord V)
  sht = sht_hashing hash

  -- The table stands for the map: a search finds data for a key that has it, and no record else.
  pub record Represents (f : String → Option V) (t : Ht (ShtRecord V)) : Type 0 where
    pub held : ShtRecord V → List (ShtRecord V)
    pub holds : Holds sht held t
    pub absent : (k : String) → f k ≡ none → ht_lookup sht t (query hash k) ≡ none
    pub present :
        (k : String) (v : V)
        → f k ≡ some v
        → (sr : ShtRecord V) × ((ht_lookup sht t (query hash k) ≡ some sr)
            × (sr.sr_data ≡ some v)
            × (sr.sr_key ≡ k))

  -- A map with another value for one key
  abbrev pub update : (String → Option V) → String → Option V → String → Option V
  update f k v j = if str_eq j k then v else f j

  lookup-same :
      {held : ShtRecord V → List (ShtRecord V)} {t : Ht (ShtRecord V)} (q d : ShtRecord V)
      → Holds sht held t
      → q.sr_key ≡ d.sr_key
      → ht_lookup sht t q ≡ ht_lookup sht t d
  lookup-same q d w e =
      Holds-lookup sht q w
      ∙ (ap (first_of sht) (same-reads sht q d w ((eq_iff q.sr_key d.sr_key).1 e))
          ∙ sym (Holds-lookup sht d w))

  pub sht_lookup-Represents :
      (f : String → Option V) (t : Ht (ShtRecord V)) (k : String)
      → Represents f t
      → sht_lookup hash t k ≡ f k
  unfolding sht_lookup
  sht_lookup-Represents f t k r = elim (Option-cases (f k)) [
    | inl e ↦ rw (r.absent k e, e, sht_lookup) refl
    | inr (v, e) ↦
        let (sr, (found, stored, key)) = r.present k v e in rw (found, e, sht_lookup) stored
  ]

  Represents-congr :
      {f g : String → Option V} {t : Ht (ShtRecord V)}
      → Represents f t
      → ((k : String) → f k ≡ g k)
      → Represents g t
  Represents-congr r e = record {
    held = r.held;
    holds = r.holds;
    absent = λ k n. r.absent k (e k ∙ n);
    present = λ k v s. r.present k v (e k ∙ s);
  }

  -- A new table has no key.
  pub init-Represents : (n : ℕ) → 0 < n → Represents (λ k. none) (ht_init n)
  init-Represents n p = record {
    held = λ q. [];
    holds = init-Holds sht n p;
    absent = λ k e. Holds-lookup sht (query hash k) (init-Holds sht n p);
    present = λ k v e. absurd (none_some e);
  }
    where
      none_some : {v : V} → none ≡ some v → ⊥
      none_some e = cc

  -- If searches find what they did but for one key, so does the map.
  changed :
      (f : String → Option V) (t t' : Ht (ShtRecord V)) (k : String) (found : Option (ShtRecord V))
      (held : ShtRecord V → List (ShtRecord V)) (value : Option V)
      → Represents f t
      → Holds sht held t'
      → ((j : String)
          → ht_lookup sht t' (query hash j)
            ≡ (if str_eq j k then found else ht_lookup sht t (query hash j)))
      → (value ≡ none → found ≡ none)
      → ((v : V)
          → value ≡ some v
          → (sr : ShtRecord V) × ((found ≡ some sr) × (sr.sr_data ≡ some v) × (sr.sr_key ≡ k)))
      → Represents (update f k value) t'
  changed f t t' k found held value r w reads gone kept = record {
    held = held;
    holds = w;
    absent = λ j e. reads j ∙ (elim (Bool-cases (str_eq j k)) [
      | inl m ↦ rw m (gone (rw m at e))
      | inr n ↦ rw n (r.absent j (rw n at e))
    ]);
    present = λ j v e. elim (Bool-cases (str_eq j k)) [
      | inl m ↦
          let (sr, (here, stored, key)) = kept v (rw m at e) in
          (sr, (reads j ∙ (rw m here), stored, key ∙ sym ((eq_iff j k).0 m)))
      | inr n ↦
          let (sr, (here, stored, key)) = r.present j v (rw n at e) in
          (sr, (reads j ∙ (rw n here), stored, key))
    ];
  }

  pub sht_remove-Represents :
      (f : String → Option V) (t : Ht (ShtRecord V)) (k : String)
      → Represents f t
      → Represents (update f k none) (sht_remove hash t k)
  unfolding sht_remove
  sht_remove-Represents f t k r = elim (Option-cases (f k)) [
    | inl e ↦
        rw (r.absent k e, sht_remove)
          (Represents-congr r (λ j. elim (Bool-cases (str_eq j k)) [
            | inl m ↦ rw m (ap f ((eq_iff j k).0 m) ∙ e)
            | inr n ↦ rw n refl
          ]))
    | inr (v, e) ↦
        let (sr, (found, stored, key)) = r.present k v e in
        let (w, reads) = ht_remove-lookup sht r.held t sr r.holds in
        rw (found, sht_remove)
          (changed f t (ht_remove sht t sr) k none (minus sht r.held sr) none r w
            (λ j. reads (query hash j) ∙ (rw key refl)) (λ n. refl) (λ v n. absurd (none_some n)))
  ]
    where
      none_some : {v : V} → none ≡ some v → ⊥
      none_some e = cc

  -- The result of an insertion, by what the map has for the key
  abbrev pub Inserted :
      Option V
      → (String → Option V)
      → Ht (ShtRecord V)
      → String
      → V
      → Bool × Ht (ShtRecord V)
      → Type 0
  Inserted none f t k v r = (r.0 ≡ true) × Represents (update f k (some v)) r.1
  Inserted (some u) f t k v r = r ≡ (false, t)

  module _ (overloaded : Load)
      (bounded : (b : ℕ) (r : ℤ) → overloaded b r ≡ true → b < 2 ^ 31) where
    insert-absent :
        (levels : ℕ) (f : String → Option V) (t : Ht (ShtRecord V)) (k : String) (v : V)
        → Represents f t
        → f k ≡ none
        → ((sht_insert hash overloaded levels t k v).0 ≡ true)
          × Represents (update f k (some v)) (sht_insert hash overloaded levels t k v).1
    unfolding sht_insert
    insert-absent levels f t k v r e =
        let sr : ShtRecord V = record { sr_key = k; sr_data = some v } in
        let (done, w, reads) =
          ht_insert-fresh sht overloaded bounded levels t sr r.held r.holds
            (lookup-same sr (query hash k) r.holds refl ∙ r.absent k e) in
        (
          done,
          changed f t (ht_insert sht overloaded levels t sr).1 k (some sr) (plus sht r.held sr)
              (some v) r w (λ j. reads (query hash j)) (λ n. absurd (some_none n))
              (λ u n. (sr, (refl, n, refl))),
        )
      where
        some_none : some v ≡ none → ⊥
        some_none n = cc

    insert-present :
        (levels : ℕ) (f : String → Option V) (t : Ht (ShtRecord V)) (k : String) (v u : V)
        → Represents f t
        → f k ≡ some u
        → sht_insert hash overloaded levels t k v ≡ (false, t)
    unfolding sht_insert
    insert-present levels f t k v u r e =
        let sr : ShtRecord V = record { sr_key = k; sr_data = some v } in
        let (old, (found, stored, key)) = r.present k u e in
        ht_insert-known sht overloaded bounded levels t sr old
          (lookup-same sr (query hash k) r.holds refl ∙ found)

    -- `sht_insert` adds a key that the map does not have, and refuses one that it has without a change.
    pub sht_insert-Represents :
        (levels : ℕ) (f : String → Option V) (t : Ht (ShtRecord V)) (k : String) (v : V)
        → Represents f t
        → Inserted (f k) f t k v (sht_insert hash overloaded levels t k v)
    sht_insert-Represents levels f t k v r = elim (Option-cases (f k)) [
      | inl e ↦ rw e (insert-absent levels f t k v r e)
      | inr (u, e) ↦ rw e (insert-present levels f t k v u r e)
    ]

    -- `sht_replace` succeeds, and sets the key, which the map may have or not.
    pub sht_replace-Represents :
        (levels : ℕ) (f : String → Option V) (t : Ht (ShtRecord V)) (k : String) (v : V)
        → Represents f t
        → ((sht_replace hash overloaded levels t k v).0 ≡ true)
          × Represents (update f k (some v)) (sht_replace hash overloaded levels t k v).1
    unfolding sht_replace
    sht_replace-Represents levels f t k v r =
        let here : str_eq k k ≡ true = (eq_iff k k).1 refl in
        let gone : update f k none k ≡ none = rw here refl in
        let (done, r') =
          insert-absent levels (update f k none) (sht_remove hash t k) k v
            (sht_remove-Represents f t k r) gone in
        (done, Represents-congr r' (λ j. ground arith))
