-- ===== src/Ll/Chain.antt =====
-- The sequence of data that a linked list stands for.
use mopher.Prelude.{
  ℕ, zero, suc, ◌<◌, ◌≡◌, ◌≢◌, refl, ap, sym, ◌∙◌, false, Option, none, some, List, [], ◌∷◌, ◌++◌,
  arith, ◌==◌, length, length-append,
}
use mopher.Ll.{
  Entry, Memory, Ll, or_else, update, malloc, tail_after, take_head, ll_insert_head, ll_insert_tail,
  ll_remove_head, ll_next, walk_from, ll_walk,
}

abbrev pub head_of : List ℕ → Option ℕ
head_of [] = none
head_of (p ∷ ps) = some p

abbrev pub last_of : List ℕ → Option ℕ
last_of [] = none
last_of (p ∷ []) = some p
last_of (p ∷ q ∷ ps) = last_of (q ∷ ps)

-- The address is new to the list.
abbrev pub NotIn : ℕ → List ℕ → Type 0
NotIn p [] = Unit
NotIn p (q ∷ qs) = (p ≢ q) × NotIn p qs

abbrev pub AllBelow : ℕ → List ℕ → Type 0
AllBelow n [] = Unit
AllBelow n (p ∷ ps) = (p < n) × AllBelow n ps

below-NotIn : (n : ℕ) (ps : List ℕ) → AllBelow n ps → NotIn n ps
below-NotIn n [] h = tt
below-NotIn n (p ∷ ps) (h, hs) = (λ e. omega (arith, h, e), below-NotIn n ps hs)

AllBelow-suc : (n : ℕ) (ps : List ℕ) → AllBelow n ps → AllBelow (suc n) ps
AllBelow-suc n [] h = tt
AllBelow-suc n (p ∷ ps) (h, hs) = (omega (arith, h), AllBelow-suc n ps hs)

tail_of_head : (ps : List ℕ) (p : ℕ) → or_else (last_of ps) (some p) ≡ last_of (p ∷ ps)
tail_of_head [] p = refl
tail_of_head (q ∷ []) p = refl
tail_of_head (q ∷ r ∷ ps) p = tail_of_head (r ∷ ps) p

last-ne : (q r t : ℕ) (ps : List ℕ) → NotIn q (r ∷ ps) → last_of (r ∷ ps) ≡ some t → q ≢ t
last-ne q r t [] (ne, n) h = λ e. ne (ground (arith, h, e))
last-ne q r t (s ∷ ps) (ne, n) h = last-ne q s t ps n h

NotIn-snoc : (q p : ℕ) (ps : List ℕ) → NotIn q ps → q ≢ p → NotIn q (ps ++ p ∷ [])
NotIn-snoc q p [] n ne = (ne, tt)
NotIn-snoc q p (r ∷ ps) (other, n) ne = (other, NotIn-snoc q p ps n ne)

AllBelow-snoc : (n p : ℕ) (ps : List ℕ) → AllBelow n ps → p < n → AllBelow n (ps ++ p ∷ [])
AllBelow-snoc n p [] h k = (k, tt)
AllBelow-snoc n p (q ∷ ps) (l, h) k = (l, AllBelow-snoc n p ps h k)

last_of-snoc : (p : ℕ) (ps : List ℕ) → last_of (ps ++ p ∷ []) ≡ some p
last_of-snoc p [] = refl
last_of-snoc p (q ∷ []) = refl
last_of-snoc p (q ∷ r ∷ ps) = last_of-snoc p (r ∷ ps)

tail_after-last : (p : ℕ) (ps : List ℕ) → tail_after (head_of ps) (last_of (p ∷ ps)) ≡ last_of ps
tail_after-last p [] = refl
tail_after-last p (q ∷ ps) = refl

head_of-snoc : (p : ℕ) (ps : List ℕ) → or_else (head_of ps) (some p) ≡ head_of (ps ++ p ∷ [])
head_of-snoc p [] = refl
head_of-snoc p (q ∷ ps) = refl

module _ {A : Type 0} where
  -- The entries at the addresses hold the data, each leads to the next one, and no address comes twice.
  abbrev pub Linked : (ℕ → Option (Entry A)) → List ℕ → List A → Type 0
  Linked f [] [] = Unit
  Linked f [] (x ∷ xs) = ⊥
  Linked f (p ∷ ps) [] = ⊥
  Linked f (p ∷ ps) (x ∷ xs) =
      (f p ≡ some (record { lle_data = x; lle_next = head_of ps })) × NotIn p ps × Linked f ps xs

  abbrev pub Represents : Memory A → Ll → List A → Type 0
  Represents m ll xs =
      (ps : List ℕ) × ((ll.ll_head ≡ head_of ps)
        × (ll.ll_tail ≡ last_of ps)
        × (ll.ll_size ≡ length xs)
        × AllBelow m.unused ps
        × Linked m.entry ps xs)

  Linked-update :
      (f : ℕ → Option (Entry A)) (p : ℕ) (e : Option (Entry A)) (ps : List ℕ) (xs : List A)
      → NotIn p ps
      → Linked f ps xs
      → Linked (update f p e) ps xs
  Linked-update f p e [] [] n l = tt
  Linked-update f p e [] (x ∷ xs) n l = l
  Linked-update f p e (q ∷ qs) [] n l = l
  Linked-update f p e (q ∷ qs) (x ∷ xs) (ne, n) (here, new, l) =
      (ground (arith, here, ne), new, Linked-update f p e qs xs n l)

  pub ll_insert_head-Represents :
      (m : Memory A) (ll : Ll) (x : A) (xs : List A)
      → Represents m ll xs
      → Represents (ll_insert_head m ll x).0 (ll_insert_head m ll x).1 (x ∷ xs)
  unfolding ll_insert_head
  ll_insert_head-Represents m ll x xs (ps, (h, t, s, b, l)) = (
    m.unused ∷ ps,
    (
      refl,
      rw t (tail_of_head ps m.unused),
      ap suc s,
      (omega arith, AllBelow-suc m.unused ps b),
      (
        ground (arith, h),
        below-NotIn m.unused ps b,
        Linked-update m.entry m.unused _ ps xs (below-NotIn m.unused ps b) l,
      ),
    ),
  )

  -- The last entry is made to lead to a new one.
  Linked-snoc :
      (f : ℕ → Option (Entry A)) (q : ℕ) (ps : List ℕ) (y : A) (xs : List A) (p : ℕ) (x : A)
      → Linked f (q ∷ ps) (y ∷ xs)
      → NotIn p (q ∷ ps)
      → f p ≡ some (record { lle_data = x; lle_next = none })
      → (t : ℕ) × ((e : Entry A) × ((last_of (q ∷ ps) ≡ some t)
            × (f t ≡ some e)
            × Linked
                (update f t (some (record e { lle_next = some p })))
                (q ∷ ps ++ p ∷ [])
                (y ∷ xs ++ x ∷ [])))
  Linked-snoc f q [] y [] p x (here, n, l) (ne, m) new = (
    q,
    (
      record { lle_data = y; lle_next = none },
      (refl, here, (ground arith, (λ e. ne (sym e), tt), (ground (arith, new, ne), tt, tt))),
    ),
  )
  Linked-snoc f q [] y (z ∷ xs) p x (here, n, l) m new = absurd l
  Linked-snoc f q (r ∷ ps) y [] p x (here, n, l) m new = absurd l
  Linked-snoc f q (r ∷ ps) y (z ∷ xs) p x (here, n, l) (ne, m) new =
      let (t, (e, (last, at, linked))) = Linked-snoc f r ps z xs p x l m new in
      let apart = last-ne q r t ps n last in
      (
        t,
        (
          e,
          (
            last,
            at,
            (ground (arith, here, apart), NotIn-snoc q p (r ∷ ps) n (λ e. ne (sym e)), linked),
          ),
        ),
      )

  pub ll_next-head :
      (m : Memory A) (p : ℕ) (ps : List ℕ) (x : A) (xs : List A)
      → Linked m.entry (p ∷ ps) (x ∷ xs)
      → ll_next m (some p) ≡ some (some x, head_of ps)
  unfolding ll_next
  ll_next-head m p ps x xs (here, n, l) = rw (ll_next, here)

  abbrev pub Inserted : Option (Memory A × Ll) → List A → Type 0
  Inserted none xs = ⊥
  Inserted (some (m, ll)) xs = Represents m ll xs

  abbrev pub Removed : Option (Option A × Memory A × Ll) → A → List A → Type 0
  Removed none x xs = ⊥
  Removed (some (o, m, ll)) x xs = (o ≡ some x) × Represents m ll xs

  pub ll_remove_head-Removed :
      (m : Memory A) (ll : Ll) (x : A) (xs : List A)
      → Represents m ll (x ∷ xs)
      → Removed (ll_remove_head m ll) x xs
  unfolding ll_remove_head
  ll_remove_head-Removed m ll x xs ([], (h, t, s, b, l)) = absurd l
  ll_remove_head-Removed m ll x xs (p ∷ ps, (h, t, s, (b, bs), (here, n, l))) =
      let filled : (ll.ll_size == 0) ≡ false = ground (arith, s) in
      rw (Removed, filled, h, take_head, here)
        (
          refl,
          (
            ps,
            (
              refl,
              rw t (tail_after-last p ps),
              omega (arith, s),
              bs,
              Linked-update m.entry p none ps xs n l,
            ),
          ),
        )

  length-snoc : (xs : List A) (x : A) → suc (length xs) ≡ length (xs ++ x ∷ [])
  length-snoc xs x = omega (arith, length-append {0} xs (x ∷ []))

  pub ll_insert_tail-Inserted :
      (m : Memory A) (ll : Ll) (x : A) (xs : List A)
      → Represents m ll xs
      → Inserted (ll_insert_tail m ll x) (xs ++ x ∷ [])
  unfolding ll_insert_tail
  ll_insert_tail-Inserted m ll x [] ([], (h, t, s, b, l)) =
      rw (Inserted, t)
        (m.unused ∷ [], (rw h, refl, ap suc s, (omega arith, tt), (ground arith, tt, tt)))
  ll_insert_tail-Inserted m ll x (y ∷ xs) ([], (h, t, s, b, l)) = absurd l
  ll_insert_tail-Inserted m ll x [] (q ∷ ps, (h, t, s, b, l)) = absurd l
  ll_insert_tail-Inserted m ll x (y ∷ xs) (q ∷ ps, (h, t, s, b, l)) =
      let p = m.unused in
      let new = below-NotIn p (q ∷ ps) b in
      let m1 = malloc m (record { lle_data = x; lle_next = none }) in
      let (last, (e, (is_last, at, linked))) =
        Linked-snoc m1.entry q ps y xs p x (Linked-update m.entry p _ (q ∷ ps) (y ∷ xs) new l) new
          (ground arith) in
      rw (Inserted, t ∙ is_last, at)
        (
          q ∷ ps ++ p ∷ [],
          (
            rw h,
            sym (last_of-snoc p (q ∷ ps)),
            ap suc s ∙ length-snoc (y ∷ xs) x,
            AllBelow-snoc (suc p) p (q ∷ ps) (AllBelow-suc p (q ∷ ps) b) (omega arith),
            linked,
          ),
        )

  abbrev pub visit : {S : Type 0} → (A → S → S) → List A → S → S
  visit callback [] s = s
  visit callback (x ∷ xs) s = visit callback xs (callback x s)

  walk_from_lem :
      {S : Type 0} (callback : A → S → S) (m : Memory A) (n : ℕ) (ps : List ℕ) (xs : List A) (s : S)
      → length xs < n
      → Linked m.entry ps xs
      → walk_from callback m n (head_of ps) s ≡ some (visit callback xs s)
  unfolding walk_from
  walk_from_lem callback m zero ps xs s h l = absurd (omega (arith, h))
  walk_from_lem callback m (suc n) [] [] s h l = refl
  walk_from_lem callback m (suc n) [] (x ∷ xs) s h l = absurd l
  walk_from_lem callback m (suc n) (p ∷ ps) [] s h l = absurd l
  walk_from_lem callback m (suc n) (p ∷ ps) (x ∷ xs) s h (here, new, l) =
      rw (walk_from, here) (walk_from_lem callback m n ps xs (callback x s) (omega (arith, h)) l)

  -- With fuel for the entries and one more, the walk ends, and has called the callback with the data in order.
  pub ll_walk-visit :
      {S : Type 0} (callback : A → S → S) (m : Memory A) (n : ℕ) (ll : Ll) (xs : List A) (s : S)
      → Represents m ll xs
      → ll.ll_size < n
      → ll_walk callback m n ll s ≡ some (visit callback xs s)
  unfolding ll_walk
  ll_walk-visit callback m n ll xs s (ps, (h, t, size, b, l)) k =
      rw h (walk_from_lem callback m n ps xs s (omega (arith, size, k)) l)
