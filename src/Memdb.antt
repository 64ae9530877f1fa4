-- ===== src/Memdb.antt =====
-- The database in memory (src/modules/memdb.c): a hash table of packed records, by the bytes of their
-- keys. `memcmp` reads as many bytes of both keys as the first one has, so that the records of the table
-- are of one scheme, of whose keys none begins another; a record with another key is undefined. The hash
-- is that of src/hash.c. Allocation succeeds.
pub mod Map
pub mod Janitor
mod Sample
mod Tests
use mopher.Prelude.{
  ℕ, zero, suc, ◌≡◌, refl, sym, ap, ◌∙◌, Bool, true, false, Option, none, some, List, [], ◌∷◌,
  if◌then◌else◌,
}
use mopher.Exec.{Fault, Result, ok, fail, error, undefined}
use mopher.Hash.{hash_one_at_a_time}
use mopher.Ht.{Hashing, Ht, Load, Pos, ht_init, ht_lookup, ht_insert, ht_remove, ht_start, ht_next}
use mopher.Vp.{Item, Record, Vp, vp_pack, vp_unpack, ◌>>=◌}
use mopher.Vp.Keys.{key_left, IsKey, begins, begins_refl, IsKey-begins}

-- A packed record whose key is one of the scheme
pub record Packed (scheme : Record) : Type 0 where
  pub vp : Vp
  pub keyed : IsKey scheme.items vp.vp_key

module _ (scheme : Record) where
  abbrev pub memdb_record_hash : Packed scheme → ℕ
  memdb_record_hash d = hash_one_at_a_time d.vp.vp_key

  abbrev pub memdb_record_match : Packed scheme → Packed scheme → Bool
  memdb_record_match d1 d2 = begins d1.vp.vp_key d2.vp.vp_key

  pub match-key : (a b : Packed scheme) → memdb_record_match a b ≡ true → a.vp.vp_key ≡ b.vp.vp_key
  match-key a b e = IsKey-begins scheme.items a.vp.vp_key b.vp.vp_key a.keyed b.keyed e

  pub key-match : (a b : Packed scheme) → a.vp.vp_key ≡ b.vp.vp_key → memdb_record_match a b ≡ true
  key-match a b e = rw e (begins_refl b.vp.vp_key)

  abbrev pub memdb_hashing : Hashing (Packed scheme)
  memdb_hashing = record {
    ht_hash = memdb_record_hash;
    ht_match = memdb_record_match;
    match_refl = λ a. begins_refl a.vp.vp_key;
    match_sym = λ a b e. key-match b a (sym (match-key a b e));
    match_trans = λ a b c e f. key-match a c (match-key a b e ∙ match-key b c f);
    match_hash = λ a b e. ap hash_one_at_a_time (match-key a b e);
  }

  abbrev pub Table : Type 0
  Table = Ht (Packed scheme)

  unfoldable pub memdb_open : Table
  memdb_open = ht_init 4096

  -- The record is of the scheme if nothing is left of its key.
  abbrev pub checked :
      (vp : Vp) (left : Result (List ℕ))
      → key_left scheme.items vp.vp_key ≡ left
      → Result (Packed scheme)
  checked vp (ok []) e = ok (record { vp = vp; keyed = e })
  checked vp (ok (b ∷ bs)) e = fail undefined
  checked vp (fail f) e = fail undefined

  module _ {S : Type 0} (handle : S → Table) (callback : S → Record → Result (Unit {0}) × S) where
    -- An error of the callback is logged.
    abbrev pub after_callback :
        Result (Unit {0}) × S
        → (S → Option (Result (Unit {0}) × S))
        → Option (Result (Unit {0}) × S)
    after_callback (ok u, s) next = next s
    after_callback (fail Fault.error, s) next = next s
    after_callback (fail e, s) next = some (fail e, s)

    -- The loop of `memdb_walk`, with fuel for a number of calls of `ht_next`: `none` is no fuel.
    unfoldable pub walk_from : ℕ → S → Pos (Packed scheme) → Option (Result (Unit {0}) × S)
    unfolding ht_next vp_unpack
    walk_from zero s p = none
    walk_from (suc n) s p =
        let (x, p') = ht_next memdb_hashing (handle s) p in
        elim x [
          | none ↦ some (ok tt, s)
          | some d ↦ elim (vp_unpack d.vp scheme) [
            | fail e ↦ some (fail e, s)
            | ok r ↦ after_callback (callback s r) (λ s'. walk_from n s' p')
          ]
        ]

    unfoldable pub memdb_walk : ℕ → S → Option (Result (Unit {0}) × S)
    unfolding walk_from ht_start
    memdb_walk n s = walk_from n s (ht_start memdb_hashing (handle s))

  module _ (var_dump_data : List ℕ → Option (List ℕ)) (overloaded : Load) where
    unfoldable pub pack : Record → Result (Packed scheme)
    unfolding vp_pack
    pack r = vp_pack var_dump_data r >>= λ vp. checked vp (key_left scheme.items vp.vp_key) refl

    abbrev pub unpacked : Option (Packed scheme) → Result (Option Record)
    unpacked none = ok none
    unpacked (some d) = vp_unpack d.vp scheme >>= λ r. ok (some r)

    -- `none` is a NULL result.
    unfoldable pub memdb_get : Table → Record → Result (Option Record)
    unfolding pack ht_lookup vp_unpack
    memdb_get t r = pack r >>= λ key. unpacked (ht_lookup memdb_hashing t key)

    abbrev pub inserted : Bool × Table → Result (Unit {0}) × Table
    inserted (true, t) = (ok tt, t)
    inserted (false, t) = (fail error, t)

    unfoldable pub memdb_set : ℕ → Table → Record → Result (Unit {0}) × Table
    unfolding pack ht_insert ht_remove
    memdb_set levels t r = elim (pack r) [
      | fail e ↦ (fail e, t)
      | ok d ↦ inserted (ht_insert memdb_hashing overloaded levels (ht_remove memdb_hashing t d) d)
    ]

    unfoldable pub memdb_del : Table → Record → Result (Unit {0}) × Table
    unfolding pack ht_remove
    memdb_del t r = elim (pack r) [
      | fail e ↦ (fail e, t)
      | ok d ↦ (ok tt, ht_remove memdb_hashing t d)
    ]
