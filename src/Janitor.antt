-- ===== src/Janitor.antt =====
-- The janitor (src/dbt.c), which cleans up the tables of databases: `dbt_janitor_cleanup`, one round of the
-- loop in `dbt_janitor` at a time `now`, and when the next round begins. What a driver does to a database is
-- a parameter; the walk is that of Memdb/Janitor. Log lines and the watchdog are left out.
pub mod Due
mod Tests
use mopher.Prelude.{Bool, true, false, Option, none, some, List, [], ◌∷◌, if◌then◌else◌}
use mopher.Prelude.Int.{ℤ, pos, negsuc, ◌+ℤ◌, ltb_ℤ, eqb_ℤ, to_int}

module _ (D : Type 0) where
  -- The number of records that went, or -1, and the database after it
  pub record Driver : Type 0 where
    pub dd_expire : Option (D → ℤ × D)
    pub dd_walk : Option (D → ℤ × D)

  pub record Table : Type 0 where
    pub dbt_driver : Option Driver
    pub dbt_validate : Bool
    pub dbt_cleanup_interval : ℤ
    pub dbt_cleanup_schedule : ℤ
    pub dbt_handle : D

-- An `int` as an `unsigned long`
abbrev pub unsigned_long : ℤ → ℤ
unsigned_long n = if ltb_ℤ n (pos 0) then n +ℤ pos 0x10000000000000000 else n

abbrev pub no_table : ℤ
no_table = pos 0xffffffff

module _ {D : Type 0} where
  abbrev pub cleanup_by : Option (D → ℤ × D) → Option (D → ℤ × D) → Bool → D → ℤ × D
  cleanup_by (some expire) walk validate db = expire db
  cleanup_by none (some walk) true db = walk db
  cleanup_by none (some walk) false db = (pos 0, db)
  cleanup_by none none validate db = (negsuc 0, db)

  abbrev pub cleanup_with : Option (Driver D) → Bool → D → ℤ × D
  cleanup_with none validate db = (pos 0, db)
  cleanup_with (some d) validate db = cleanup_by d.dd_expire d.dd_walk validate db

  unfoldable pub dbt_janitor_cleanup : Table D → ℤ × D
  dbt_janitor_cleanup t = cleanup_with t.dbt_driver t.dbt_validate t.dbt_handle

  -- The janitor leaves a table with the interval -1 alone.
  abbrev pub is_kept : Table D → Bool
  is_kept t = eqb_ℤ t.dbt_cleanup_interval (negsuc 0)

  -- A table that was never scheduled is due at once. `dbt_cleanup_schedule` is an `int`.
  abbrev pub scheduled : ℤ → Table D → ℤ
  scheduled now t =
      if eqb_ℤ t.dbt_cleanup_schedule (pos 0) then to_int now else t.dbt_cleanup_schedule

  -- The body of the first loop; a cleanup that failed is scheduled again too.
  unfoldable pub tend : ℤ → Table D → Table D
  unfolding dbt_janitor_cleanup to_int
  tend now t =
      if is_kept t
      then t
      else if ltb_ℤ now (scheduled now t)
      then record t { dbt_cleanup_schedule = scheduled now t }
      else record t {
        dbt_cleanup_schedule = to_int (now +ℤ t.dbt_cleanup_interval);
        dbt_handle = (dbt_janitor_cleanup t).1;
      }

  unfoldable pub tend_all : ℤ → List (Table D) → List (Table D)
  unfolding tend
  tend_all now [] = []
  tend_all now (t ∷ ts) = tend now t ∷ tend_all now ts

  -- The body of the second loop
  abbrev pub sooner : Table D → ℤ → ℤ
  sooner t schedule =
      if is_kept t
      then schedule
      else if ltb_ℤ (unsigned_long t.dbt_cleanup_schedule) schedule
      then unsigned_long t.dbt_cleanup_schedule
      else schedule

  unfoldable pub earliest : List (Table D) → ℤ → ℤ
  earliest [] schedule = schedule
  earliest (t ∷ ts) schedule = earliest ts (sooner t schedule)

  unfoldable pub next_run : ℤ → List (Table D) → ℤ
  unfolding earliest
  next_run now ts =
      let schedule = earliest ts no_table in
      if eqb_ℤ schedule no_table then now +ℤ pos 1 else schedule

  -- The tables after the round, and the time until which the thread sleeps
  unfoldable pub round : ℤ → List (Table D) → List (Table D) × ℤ
  unfolding tend_all next_run
  round now ts = let ts' = tend_all now ts in (ts', next_run now ts')

  -- The loop, for the times at which the thread runs; it sleeps in between.
  unfoldable pub dbt_janitor : List ℤ → List (Table D) → List (Table D)
  unfolding round
  dbt_janitor [] ts = ts
  dbt_janitor (now ∷ later) ts = dbt_janitor later (round now ts).0
