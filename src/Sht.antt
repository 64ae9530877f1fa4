-- ===== src/Sht.antt =====
-- Tables by string (src/sht.c): a hash table of records with a key and data. The hash of a key is a
-- parameter (`HASH`, src/hash.c); data that is stored is not NULL, and allocation succeeds.
pub mod Map
mod Tests
use mopher.Prelude.{
  ℕ, ◌≡◌, refl, sym, ap, ◌∙◌, String, Bool, true, Option, none, some, str_eq, eq_iff,
}
use mopher.Ht.{Hashing, Ht, Load, ht_lookup, ht_insert, ht_remove}

-- `none` is a NULL `sr_data`.
pub record ShtRecord (V : Type 0) : Type 0 where
  pub sr_key : String
  pub sr_data : Option V

module _ {V : Type 0} (hash : String → ℕ) where
  abbrev pub sht_record_hash : ShtRecord V → ℕ
  sht_record_hash sr = hash sr.sr_key

  abbrev pub sht_record_match : ShtRecord V → ShtRecord V → Bool
  sht_record_match sr1 sr2 = str_eq sr1.sr_key sr2.sr_key

  pub match-key : (a b : ShtRecord V) → sht_record_match a b ≡ true → a.sr_key ≡ b.sr_key
  match-key a b e = (eq_iff a.sr_key b.sr_key).0 e

  pub key-match : (a b : ShtRecord V) → a.sr_key ≡ b.sr_key → sht_record_match a b ≡ true
  key-match a b e = (eq_iff a.sr_key b.sr_key).1 e

  abbrev pub sht_hashing : Hashing (ShtRecord V)
  sht_hashing = record {
    ht_hash = sht_record_hash;
    ht_match = sht_record_match;
    match_refl = λ a. key-match a a refl;
    match_sym = λ a b e. key-match b a (sym (match-key a b e));
    match_trans = λ a b c e f. key-match a c (match-key a b e ∙ match-key b c f);
    match_hash = λ a b e. ap hash (match-key a b e);
  }

  -- The record on the stack that a search is given
  abbrev pub query : String → ShtRecord V
  query key = record { sr_key = key; sr_data = none }

  unfoldable pub sht_lookup : Ht (ShtRecord V) → String → Option V
  unfolding ht_lookup
  sht_lookup t key = elim (ht_lookup sht_hashing t (query key)) [
    | none ↦ none
    | some sr ↦ sr.sr_data
  ]

  unfoldable pub sht_remove : Ht (ShtRecord V) → String → Ht (ShtRecord V)
  unfolding ht_lookup ht_remove
  sht_remove t key = elim (ht_lookup sht_hashing t (query key)) [
    | none ↦ t
    | some sr ↦ ht_remove sht_hashing t sr
  ]

  module _ (overloaded : Load) where
    -- `true` is 0, `false` is -1.
    unfoldable pub sht_insert : ℕ → Ht (ShtRecord V) → String → V → Bool × Ht (ShtRecord V)
    unfolding ht_insert
    sht_insert levels t key item =
        ht_insert sht_hashing overloaded levels t (record { sr_key = key; sr_data = some item })

    unfoldable pub sht_replace : ℕ → Ht (ShtRecord V) → String → V → Bool × Ht (ShtRecord V)
    unfolding sht_remove sht_insert
    sht_replace levels t key item = sht_insert levels (sht_remove t key) key item
