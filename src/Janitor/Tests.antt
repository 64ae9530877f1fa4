-- ===== src/Janitor/Tests.antt =====
-- Two tables that are cleaned up and one that is not; a database is the number of its cleanups.
use mopher.Prelude.{ℕ, suc, ◌≡◌, refl, true, arith, none, some, List, [], ◌∷◌}
use mopher.Prelude.Int.{ℤ, pos, negsuc, ◌+ℤ◌, ◌<ℤ◌}
use mopher.Janitor.{Driver, Table, round, dbt_janitor}
use mopher.Janitor.Due.{InTime, AllActive, round-InTime}

abbrev driver : Driver ℕ
driver = record { dd_expire = none; dd_walk = some (λ n. (pos 1, suc n)) }

abbrev table_at : ℤ → ℤ → Table ℕ
table_at interval schedule = record {
  dbt_driver = some driver;
  dbt_validate = true;
  dbt_cleanup_interval = interval;
  dbt_cleanup_schedule = schedule;
  dbt_handle = 0;
}

abbrev tables : List (Table ℕ)
tables = table_at (pos 60) (pos 0) ∷ table_at (pos 10) (pos 1030) ∷ table_at (negsuc 0) (pos 5) ∷ []

tables-AllActive : AllActive (pos 1000) tables
unfolding ◌+ℤ◌
tables-AllActive = (
  λ h. (omega arith, omega arith, omega arith),
  (λ h. (omega arith, omega arith, omega arith), (λ h. cc, tt)),
)

round-InTime_example :
    (pos 1000 <ℤ (round (pos 1000) tables).1)
    × InTime (pos 1000) (round (pos 1000) tables).1 (round (pos 1000) tables).0
round-InTime_example = round-InTime (pos 1000) (omega arith) (omega arith) tables tables-AllActive

next : (round (pos 1000) tables).1 ≡ pos 1030
unfolding round ◌+ℤ◌
next = refl

two_rounds :
    dbt_janitor (pos 1000 ∷ pos 1030 ∷ []) tables
    ≡ record (table_at (pos 60) (pos 1060)) { dbt_handle = 1 }
      ∷ record (table_at (pos 10) (pos 1040)) { dbt_handle = 1 }
      ∷ table_at (negsuc 0) (pos 5)
      ∷ []
unfolding dbt_janitor ◌+ℤ◌
two_rounds = refl
