-- ===== src/Janitor/Due.antt =====
-- When tables are cleaned up.
use mopher.Prelude.{◌≡◌, sym, ◌∙◌, false, List, [], ◌∷◌, arith, Bool-cases, inl, inr}
use mopher.Prelude.Int.{
  ℤ, pos, ◌+ℤ◌, ◌<ℤ◌, ◌≤ℤ◌, ltb_ℤ, eqb_ℤ, to_int-fits, FitsInt, int_laws, +ℤ_parts, ltb→lt_ℤ,
  ltb→le_ℤ,
}
use mopher.Janitor.{
  Table, is_kept, scheduled, tend, tend_all, unsigned_long, sooner, earliest, no_table, next_run,
  round,
}

le_trans_ℤ : (a b c : ℤ) → a ≤ℤ b → b ≤ℤ c → a ≤ℤ c
le_trans_ℤ a b c h k = omega arith

unsigned_long_same : (n : ℤ) → pos 0 ≤ℤ n → unsigned_long n ≡ n
unsigned_long_same n h = ground arith

module _ {D : Type 0} where
  sooner-le : (t : Table D) (s : ℤ) → sooner t s ≤ℤ s
  sooner-le t s = ground arith

  -- The smallest schedule is not above any of those that were compared.
  earliest-le : (ts : List (Table D)) (s : ℤ) → earliest ts s ≤ℤ s
  unfolding earliest
  earliest-le [] s = omega arith
  earliest-le (t ∷ ts) s = le_trans_ℤ _ (sooner t s) s (earliest-le ts (sooner t s)) (sooner-le t s)

  sooner-le_schedule :
      (t : Table D) (s : ℤ)
      → is_kept t ≡ false
      → pos 0 ≤ℤ t.dbt_cleanup_schedule
      → sooner t s ≤ℤ t.dbt_cleanup_schedule
  sooner-le_schedule t s active h =
      rw (active, unsigned_long_same t.dbt_cleanup_schedule h)
        (elim (Bool-cases (ltb_ℤ t.dbt_cleanup_schedule s)) [
          | inl e ↦ rw e (omega arith)
          | inr e ↦ rw e (ltb→le_ℤ t.dbt_cleanup_schedule s e)
        ])

  sooner-gt :
      (now : ℤ) (t : Table D) (s : ℤ)
      → now <ℤ s
      → ((is_kept t ≡ false) → (now <ℤ t.dbt_cleanup_schedule) × (pos 0 ≤ℤ t.dbt_cleanup_schedule))
      → now <ℤ sooner t s
  sooner-gt now t s h k = elim (Bool-cases (is_kept t)) [
    | inl kept ↦ rw kept h
    | inr active ↦
        let (later, sign) = k active in
        rw (active, unsigned_long_same t.dbt_cleanup_schedule sign)
          (elim (Bool-cases (ltb_ℤ t.dbt_cleanup_schedule s)) [
            | inl e ↦ rw e later
            | inr e ↦ rw e h
          ])
  ]

  -- Every table that is cleaned up is scheduled after `now`.
  abbrev Later : ℤ → List (Table D) → Type 0
  Later now [] = Unit
  Later now (t ∷ ts) =
      ((is_kept t ≡ false) → (now <ℤ t.dbt_cleanup_schedule) × (pos 0 ≤ℤ t.dbt_cleanup_schedule))
      × Later now ts

  earliest-gt :
      (now : ℤ) (ts : List (Table D)) (s : ℤ) → now <ℤ s → Later now ts → now <ℤ earliest ts s
  unfolding earliest
  earliest-gt now [] s h k = h
  earliest-gt now (t ∷ ts) s h (k, l) = earliest-gt now ts (sooner t s) (sooner-gt now t s h k) l

  -- No table is due, and the thread wakes up before one is.
  abbrev pub InTime : ℤ → ℤ → List (Table D) → Type 0
  InTime now wake [] = Unit
  InTime now wake (t ∷ ts) =
      ((is_kept t ≡ false) → (now <ℤ t.dbt_cleanup_schedule) × (wake ≤ℤ t.dbt_cleanup_schedule))
      × InTime now wake ts

  earliest-InTime :
      (now : ℤ) (ts : List (Table D)) (s wake : ℤ)
      → wake ≤ℤ earliest ts s
      → Later now ts
      → InTime now wake ts
  unfolding earliest
  earliest-InTime now [] s wake h k = tt
  earliest-InTime now (t ∷ ts) s wake h (k, l) = (
    λ active. (
      (k active).0,
      le_trans_ℤ wake (earliest ts (sooner t s)) _ h (
          le_trans_ℤ _ (sooner t s) _ (earliest-le ts (sooner t s))
            (sooner-le_schedule t s active (k active).1)),
    ),
    earliest-InTime now ts (sooner t s) wake h l,
  )

  next-InTime : (now : ℤ) (ts : List (Table D)) → Later now ts → InTime now (now +ℤ pos 1) ts
  next-InTime now [] l = tt
  next-InTime now (t ∷ ts) (k, l) = (
    λ active. ((k active).0, omega (arith, +ℤ_parts now (pos 1), (k active).0)),
    next-InTime now ts l,
  )

  next_run-InTime :
      (now : ℤ) (ts : List (Table D))
      → now <ℤ no_table
      → Later now ts
      → (now <ℤ next_run now ts) × InTime now (next_run now ts) ts
  unfolding next_run
  next_run-InTime now ts h l = elim (Bool-cases (eqb_ℤ (earliest ts no_table) no_table)) [
    | inl e ↦ rw e (omega (arith, +ℤ_parts now (pos 1)), next-InTime now ts l)
    | inr e ↦ rw e (
      earliest-gt now ts no_table h l,
      earliest-InTime now ts no_table (earliest ts no_table) (omega arith) l,
    )
  ]

  -- The interval of a table that is cleaned up is positive, and its times are those of an `int`.
  abbrev pub IsActive : ℤ → Table D → Type 0
  IsActive now t =
      (is_kept t ≡ false)
      → (pos 0 <ℤ t.dbt_cleanup_interval)
        × (pos 0 ≤ℤ t.dbt_cleanup_schedule)
        × FitsInt (now +ℤ t.dbt_cleanup_interval)

  abbrev pub AllActive : ℤ → List (Table D) → Type 0
  AllActive now [] = Unit
  AllActive now (t ∷ ts) = IsActive now t × AllActive now ts

module _ {D : Type 0} (now : ℤ) (positive : pos 0 <ℤ now) (fits : FitsInt now) where
  kept-tend : (t : Table D) → is_kept (tend now t) ≡ is_kept t
  unfolding tend
  kept-tend t = elim (Bool-cases (is_kept t)) [
    | inl kept ↦ rw kept kept
    | inr active ↦ rw active (elim (Bool-cases (ltb_ℤ now (scheduled now t))) [
      | inl later ↦ rw later active
      | inr due ↦ rw due active
    ])
  ]

  tend-later :
      (t : Table D) → IsActive now t → is_kept t ≡ false → now <ℤ (tend now t).dbt_cleanup_schedule
  unfolding tend
  tend-later t h active =
      let (interval, old, next) = h active in
      rw active (elim (Bool-cases (ltb_ℤ now (scheduled now t))) [
        | inl later ↦ rw later (ltb→lt_ℤ now (scheduled now t) later)
        | inr due ↦ rw (due, to_int-fits (now +ℤ t.dbt_cleanup_interval) next) (omega int_laws)
      ])

  tend_all-Later : (ts : List (Table D)) → AllActive now ts → Later now (tend_all now ts)
  unfolding tend_all
  tend_all-Later [] h = tt
  tend_all-Later (t ∷ ts) (h, hs) = (
    λ active.
        let later = tend-later t h (sym (kept-tend t) ∙ active) in (later, omega (arith, later)),
    tend_all-Later ts hs,
  )

  -- After a round no table is due, the thread wakes up later than now, and before a table is due.
  pub round-InTime :
      (ts : List (Table D))
      → AllActive now ts
      → (now <ℤ (round now ts).1) × InTime now (round now ts).1 (round now ts).0
  unfolding round
  round-InTime ts h = next_run-InTime now (tend_all now ts) (omega arith) (tend_all-Later ts h)
