-- ===== src/Dbt.antt =====
-- The database layer (src/dbt.c) as the greylist uses it: `dbt_db_get` and `dbt_db_set` on a table
-- whose records have a key part and a value part. Which driver serves the table is configuration, so
-- the operations and what a driver promises are an interface.
use mopher.Prelude.{
  ◌≡◌, Bool, true, Option, some, arith, if◌then◌else◌, ◌&&◌, String, str_eq, eq_iff, eq_refl,
}

-- The key of the greylist table: `origin`, `envfrom_addr` and `envrcpt_addr`.
pub record Key : Type 0 where
  pub origin : String
  pub envfrom : String
  pub envrcpt : String

unfoldable pub key_eq : Key → Key → Bool
key_eq a b = str_eq a.origin b.origin && (str_eq a.envfrom b.envfrom && str_eq a.envrcpt b.envrcpt)

pub key_eq_refl : (k : Key) → key_eq k k ≡ true
unfolding key_eq
key_eq_refl k = ground (arith, eq_refl k.origin, eq_refl k.envfrom, eq_refl k.envrcpt)

pub key_eq_sound : (a b : Key) → key_eq a b ≡ true → a ≡ b
unfolding key_eq
key_eq_sound a b h =
    ground (arith, eq_iff a.origin b.origin, eq_iff a.envfrom b.envfrom, eq_iff a.envrcpt b.envrcpt)

-- `get` returns `none` where the call fails, and else the record or NULL; `set` returns whether the
-- call succeeded. A successful write is what a later read returns, and changes no other record.
pub record Dbt (V : Type 0) : Type 1 where
  pub Db : Type 0
  pub get : Db → Key → Option (Option V)
  pub set : Db → Key → V → Bool × Db
  pub get-set :
      (db : Db) (k j : Key) (v : V)
      → (set db k v).0 ≡ true
      → get (set db k v).1 j ≡ (if key_eq k j then some (some v) else get db j)
