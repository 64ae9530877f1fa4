-- ===== src/Memdb/Map.antt =====
-- The map from keys to records that the database in memory stands for, and what each operation makes of it.
use mopher.Prelude.{
  ℕ, ◌^◌, ◌<◌, ◌≡◌, refl, sym, ap, ◌∙◌, Bool, true, false, Option, none, some, List, [], ◌∷◌, arith,
  Bool-cases, ==_iff, inl, inr, ◌==◌, ◌&&◌, if◌then◌else◌,
}
use mopher.Prelude.Int.{ℤ}
use mopher.Exec.{Result, ok, fail}
use mopher.Ht.{Hashing, Load, ht_init, ht_lookup, ht_insert, ht_remove}
use mopher.Ht.Place.{Holds, Holds-lookup, init-Holds}
use mopher.Ht.Insert.{plus, ht_insert-fresh}
use mopher.Ht.Sweep.{All}
use mopher.Ht.Remove.{minus, ht_remove-lookup}
use mopher.Vp.{Record, Vp, vp_unpack}
use mopher.Vp.Round.{IsRecord, keys_of, pack_of, scheme_of, vp_pack-IsRecord, unpack-pack_of}
use mopher.Vp.Keys.{key_left, IsKey, keys_of-IsKey, begins_refl}
use mopher.Memdb.{
  Packed, memdb_record_match, memdb_hashing, Table, memdb_open, checked, pack, unpacked, memdb_get,
  memdb_set, memdb_del, match-key, key-match, inserted,
}

-- Equality of the bytes of keys
abbrev pub bytes_eq : List ℕ → List ℕ → Bool
bytes_eq [] [] = true
bytes_eq [] (y ∷ ys) = false
bytes_eq (x ∷ xs) [] = false
bytes_eq (x ∷ xs) (y ∷ ys) = x == y && bytes_eq xs ys

bytes_eq_sound : (a b : List ℕ) → bytes_eq a b ≡ true → a ≡ b
bytes_eq_sound [] [] h = refl
bytes_eq_sound [] (y ∷ ys) h = cc
bytes_eq_sound (x ∷ xs) [] h = cc
bytes_eq_sound (x ∷ xs) (y ∷ ys) h = ground (arith, bytes_eq_sound xs ys)

bytes_eq_refl : (a : List ℕ) → bytes_eq a a ≡ true
bytes_eq_refl [] = refl
bytes_eq_refl (x ∷ xs) = rw ((==_iff x x).1 refl) (bytes_eq_refl xs)

-- A map with another value for one key
abbrev pub update : (List ℕ → Option Record) → List ℕ → Option Record → List ℕ → Option Record
update f k v j = if bytes_eq j k then v else f j

-- Packable records of the types and names of a scheme
pub record IsOf (scheme r : Record) : Type 0 where
  pub packable : IsRecord r
  pub scheme_is : scheme_of r ≡ scheme

module _ (scheme : Record) (dump : List ℕ → Option (List ℕ)) (overloaded : Load) where
  abbrev hashing : Hashing (Packed scheme)
  hashing = memdb_hashing scheme

  inserted-true :
      (p : Bool × Table scheme) → p.0 ≡ true → inserted scheme dump overloaded p ≡ (ok tt, p.1)
  inserted-true (true, t) h = refl
  inserted-true (false, t) h = cc

  checked-ok :
      (vp : Vp) (left : Result (List ℕ)) (e : key_left scheme.items vp.vp_key ≡ left)
      → left ≡ ok []
      → (d : Packed scheme) × ((checked scheme vp left e ≡ ok d) × (d.vp ≡ vp))
  checked-ok vp (ok []) e h = (record { vp = vp; keyed = e }, (refl, refl))
  checked-ok vp (ok (b ∷ bs)) e h = cc
  checked-ok vp (fail f) e h = cc

  pub pack-IsOf :
      (r : Record)
      → IsOf scheme r
      → (d : Packed scheme) × ((pack scheme dump overloaded r ≡ ok d) × (d.vp ≡ pack_of r))
  unfolding pack
  pack-IsOf r h =
      let key : IsKey scheme.items (keys_of r.items) =
        rw (ap (λ (s : Record). s.items) h.scheme_is) at
          (keys_of-IsKey r.items h.packable.objects) in
      rw (vp_pack-IsRecord dump r h.packable)
        (checked-ok (pack_of r) (key_left scheme.items (keys_of r.items)) refl key)

  pub unpack-IsOf :
      (r : Record) (d : Packed scheme)
      → IsOf scheme r
      → d.vp ≡ pack_of r
      → vp_unpack d.vp scheme ≡ ok r
  unpack-IsOf r d h e = rw (e, sym h.scheme_is) (unpack-pack_of r h.packable)

  -- A record of the table was packed from one of the scheme.
  abbrev pub IsPack : Packed scheme → Type 0
  IsPack d = (r : Record) × (IsOf scheme r × (d.vp ≡ pack_of r))

  -- The table stands for the map.
  pub record Represents (f : List ℕ → Option Record) (t : Table scheme) : Type 0 where
    pub held : Packed scheme → List (Packed scheme)
    pub holds : Holds hashing held t
    pub packs : (q : Packed scheme) → All IsPack (held q)
    pub gets :
        (q : Record)
        → IsOf scheme q
        → memdb_get scheme dump overloaded t q ≡ ok (f (keys_of q.items))

  pub init-Represents : (n : ℕ) → 0 < n → Represents (λ k. none) (ht_init n)
  unfolding memdb_get
  init-Represents n some_buckets =
      let w = init-Holds hashing n some_buckets in
      record {
        held = λ q. [];
        holds = w;
        packs = λ q. tt;
        gets = λ q h.
            let (d, (packed, same)) = pack-IsOf q h in rw (packed, Holds-lookup hashing d w) refl;
      }

  pub memdb_open-Represents : Represents (λ k. none) (memdb_open scheme)
  unfolding memdb_open
  memdb_open-Represents = init-Represents 4096 (omega arith)

  match_key :
      (q r : Record) (a b : Packed scheme)
      → a.vp ≡ pack_of q
      → b.vp ≡ pack_of r
      → memdb_record_match scheme a b ≡ bytes_eq (keys_of q.items) (keys_of r.items)
  match_key q r a b e e' =
      let first : a.vp.vp_key ≡ keys_of q.items = ap (λ (v : Vp). v.vp_key) e in
      let second : b.vp.vp_key ≡ keys_of r.items = ap (λ (v : Vp). v.vp_key) e' in
      elim (Bool-cases (bytes_eq (keys_of q.items) (keys_of r.items))) [
        | inl m ↦
            key-match scheme a b
              (first ∙ (bytes_eq_sound (keys_of q.items) (keys_of r.items) m ∙ sym second))
            ∙ sym m
        | inr n ↦ elim (Bool-cases (memdb_record_match scheme a b)) [
          | inl y ↦
              let same : keys_of q.items ≡ keys_of r.items =
                sym first ∙ (match-key scheme a b y ∙ second) in
              absurd (apart (sym (bytes_eq_refl (keys_of r.items)) ∙ (rw same at n)))
          | inr n' ↦ n' ∙ sym n
        ]
      ]
    where
      apart : true ≡ false → ⊥
      apart h = cc

  minus-packs :
      (held : Packed scheme → List (Packed scheme)) (d q : Packed scheme)
      → All IsPack (held q)
      → All IsPack (minus hashing held d q)
  minus-packs held d q all = elim (Bool-cases (memdb_record_match scheme q d)) [
    | inl m ↦ rw m tt
    | inr n ↦ rw n all
  ]

  plus-packs :
      (held : Packed scheme → List (Packed scheme)) (d q : Packed scheme)
      → IsPack d
      → All IsPack (held q)
      → All IsPack (plus hashing held d q)
  plus-packs held d q one all = elim (Bool-cases (memdb_record_match scheme q d)) [
    | inl m ↦ rw m (one, all)
    | inr n ↦ rw n all
  ]

  -- If a lookup finds what it did but for the key of one record, so does the map.
  changed :
      (f : List ℕ → Option Record) (t t' : Table scheme) (r : Record) (d : Packed scheme)
      (found : Option (Packed scheme)) (value : Option Record)
      (held : Packed scheme → List (Packed scheme))
      → Represents f t
      → d.vp ≡ pack_of r
      → Holds hashing held t'
      → ((q : Packed scheme) → All IsPack (held q))
      → ((q : Packed scheme)
          → ht_lookup hashing t' q
            ≡ (if memdb_record_match scheme q d then found else ht_lookup hashing t q))
      → unpacked scheme dump overloaded found ≡ ok value
      → Represents (update f (keys_of r.items) value) t'
  unfolding memdb_get
  changed f t t' r d found value held w same w' packs reads e = record {
    held = held;
    holds = w';
    packs = packs;
    gets = λ q h.
        let (a, (packed, key)) = pack-IsOf q h in
        let before = w.gets q h in
        elim (Bool-cases (bytes_eq (keys_of q.items) (keys_of r.items))) [
          | inl m ↦ rw (packed, reads a, match_key q r a d key same, m) e
          | inr n ↦ rw (packed, reads a, match_key q r a d key same, n) (rw packed at before)
        ];
  }

  -- memdb_del succeeds and removes the key of the record, which the map may have or not.
  pub memdb_del-Represents :
      (f : List ℕ → Option Record) (t : Table scheme) (r : Record)
      → Represents f t
      → IsOf scheme r
      → ((memdb_del scheme dump overloaded t r).0 ≡ ok tt)
        × Represents (update f (keys_of r.items) none) (memdb_del scheme dump overloaded t r).1
  unfolding memdb_del
  memdb_del-Represents f t r w h =
      let (d, (packed, same)) = pack-IsOf r h in
      let (w', reads) = ht_remove-lookup hashing w.held t d w.holds in
      rw (packed, memdb_del)
        (
          refl,
          changed f t (ht_remove hashing t d) r d none none (minus hashing w.held d) w same w'
              (λ q. minus-packs w.held d q (w.packs q)) reads refl,
        )

  module _ (bounded : (b : ℕ) (r : ℤ) → overloaded b r ≡ true → b < 2 ^ 31) where
    -- memdb_set succeeds and sets the key of the record, which the map may have or not.
    pub memdb_set-Represents :
        (levels : ℕ) (f : List ℕ → Option Record) (t : Table scheme) (r : Record)
        → Represents f t
        → IsOf scheme r
        → ((memdb_set scheme dump overloaded levels t r).0 ≡ ok tt)
          × Represents
              (update f (keys_of r.items) (some r))
              (memdb_set scheme dump overloaded levels t r).1
    unfolding memdb_set
    memdb_set-Represents levels f t r w h =
        let (d, (packed, same)) = pack-IsOf r h in
        let (w₁, gone) = ht_remove-lookup hashing w.held t d w.holds in
        let left = ht_remove hashing t d in
        let absent : ht_lookup hashing left d ≡ none =
          gone d ∙ (rw (begins_refl d.vp.vp_key) refl) in
        let (done, w₂, there) =
          ht_insert-fresh hashing overloaded bounded levels left d (minus hashing w.held d) w₁
            absent in
        let reads : (q : Packed scheme)
            → ht_lookup hashing (ht_insert hashing overloaded levels left d).1 q
              ≡ (if memdb_record_match scheme q d then some d else ht_lookup hashing t q) =
          λ q. ground (arith, gone q, there q) in
        rw (packed, inserted-true (ht_insert hashing overloaded levels left d) done, memdb_set)
          (
            refl,
            changed f t (ht_insert hashing overloaded levels left d).1 r d (some d) (some r)
                (plus hashing (minus hashing w.held d) d) w same w₂
                (λ q.
                  plus-packs (minus hashing w.held d) d q (r, (h, same))
                    (minus-packs w.held d q (w.packs q)))
                reads (rw (unpack-IsOf r d h same) refl),
          )
