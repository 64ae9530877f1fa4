-- ===== src/Ht.antt =====
-- Hash tables of chains (src/ht.c). `htr_next` is the rest of a list, so a chain is a list with its
-- head first. What the table calls, `ht_hash` and `ht_match`, is a `Hashing` with what its clients
-- grant; the test of the load is done on floating-point numbers, and is a parameter. Allocation
-- succeeds, and `ht_delete` frees memory only.
pub mod Place
pub mod Insert
pub mod Remove
pub mod Walk
pub mod Sweep
pub mod Head
pub mod Levels
mod Tests
use mopher.Prelude.{
  ℕ, zero, suc, ◌*◌, ◌%◌, ◌^◌, ◌<◌, ◌≡◌, Bool, true, false, ◌||◌, Option, none, some, List, [], ◌∷◌,
  ◌++◌, ltb, ◌==◌, if◌then◌else◌, get_or, set, replicate, drop,
}
use mopher.Prelude.Int.{ℤ, pos, ◌+ℤ◌, ◌-ℤ◌, eqb_ℤ}

-- Matching is an equivalence, and records that match have one hash.
pub record Hashing (D : Type 0) : Type 0 where
  pub ht_hash : D → ℕ
  pub ht_match : D → D → Bool
  pub match_refl : (a : D) → ht_match a a ≡ true
  pub match_sym : (a b : D) → ht_match a b ≡ true → ht_match b a ≡ true
  pub match_trans : (a b c : D) → ht_match a b ≡ true → ht_match b c ≡ true → ht_match a c ≡ true
  pub match_hash : (a b : D) → ht_match a b ≡ true → ht_hash a ≡ ht_hash b

pub record Ht (D : Type 0) : Type 0 where
  pub ht_table : List (List D)
  pub ht_buckets : ℕ
  pub ht_records : ℤ
  pub ht_collisions : ℤ
  pub ht_head : ℕ

abbrev pub ht_init : {D : Type 0} → ℕ → Ht D
ht_init buckets = record {
  ht_table = replicate buckets [];
  ht_buckets = buckets;
  ht_records = pos 0;
  ht_collisions = pos 0;
  ht_head = 0;
}

-- The records in the order of the buckets
abbrev pub flatten : {D : Type 0} → List (List D) → List D
flatten [] = []
flatten (c ∷ cs) = c ++ flatten cs

abbrev pub is_empty : {D : Type 0} → List D → Bool
is_empty [] = true
is_empty (x ∷ xs) = false

-- `htr_next != NULL` of the head of a chain
abbrev pub has_next : {D : Type 0} → List D → Bool
has_next [] = false
has_next (x ∷ xs) = if is_empty xs then false else true

-- `ht_pos_t`: a bucket and what is left of its chain, `[]` for a NULL record
abbrev pub Pos : Type 0 → Type 0
Pos D = ℕ × List D

-- The loop of `ht_next` over the buckets from `i` on
abbrev pub next_bucket : {D : Type 0} → ℕ → List (List D) → Pos D
next_bucket i [] = (0, [])
next_bucket i (c ∷ cs) = let rest = next_bucket (suc i) cs in if is_empty c then rest else (i, c)

-- `HT_LOADFACTOR(ht) > MAX_LOAD` of the buckets and the records
abbrev pub Load : Type 0
Load = ℕ → ℤ → Bool

module _ {D : Type 0} (h : Hashing D) where
  open h use {ht_hash, ht_match}

  abbrev pub bucket_of : Ht D → D → ℕ
  bucket_of t d = ht_hash d % t.ht_buckets

  abbrev pub chain_at : Ht D → ℕ → List D
  chain_at t i = get_or t.ht_table i []

  -- The first record of a chain that matches
  unfoldable pub chain_lookup : D → List D → Option D
  chain_lookup d [] = none
  chain_lookup d (x ∷ xs) = if ht_match d x then some x else chain_lookup d xs

  unfoldable pub ht_lookup : Ht D → D → Option D
  unfolding chain_lookup
  ht_lookup t d = chain_lookup d (chain_at t (bucket_of t d))

  -- `ht_insert` between the search for a duplicate and the test of the load
  unfoldable pub place : Ht D → D → Ht D
  place t d =
      let bucket = bucket_of t d in
      record {
        ht_table = set t.ht_table bucket (d ∷ chain_at t bucket);
        ht_buckets = t.ht_buckets;
        ht_records = t.ht_records +ℤ pos 1;
        ht_collisions =
            if is_empty (chain_at t bucket) then t.ht_collisions else t.ht_collisions +ℤ pos 1;
        ht_head = if ltb bucket t.ht_head || eqb_ℤ t.ht_records (pos 0) then bucket else t.ht_head;
      }

  -- `ht_insert` with what it does about the load: `true` is 0, `false` is -1.
  unfoldable pub insert_with : (Ht D → Ht D) → Ht D → D → Bool × Ht D
  unfolding ht_lookup place
  insert_with grow t d = elim (ht_lookup t d) [
    | none ↦ (true, grow (place t d))
    | some x ↦ (false, t)
  ]

  -- The two loops of `ht_resize`
  unfoldable pub insert_all : (Ht D → Ht D) → Ht D → List D → Bool × Ht D
  unfolding insert_with
  insert_all grow t [] = (true, t)
  insert_all grow t (x ∷ xs) =
      let (done, t') = insert_with grow t x in
      let rest = insert_all grow t' xs in if done then rest else (false, t')

  -- The new table replaces the old one if every record could be inserted. The number of buckets is
  -- an `uint32_t`.
  unfoldable pub ht_resize : (Ht D → Ht D) → Ht D → Bool × Ht D
  unfolding insert_all
  ht_resize grow t =
      let (done, new) =
        insert_all grow (ht_init (t.ht_buckets * 2 % 2 ^ 32)) (flatten t.ht_table) in
      if done then (true, new) else (false, t)

  module _ (overloaded : Load) where
    -- The end of `ht_insert`. A resize inserts, which may resize again: `levels` bounds how often.
    unfoldable pub grow : ℕ → Ht D → Ht D
    unfolding ht_resize
    grow zero t = t
    grow (suc levels) t =
        if overloaded t.ht_buckets t.ht_records then (ht_resize (grow levels) t).1 else t

    unfoldable pub ht_insert : ℕ → Ht D → D → Bool × Ht D
    unfolding insert_with grow
    ht_insert levels t d = insert_with (grow levels) t d

  -- A chain without its first record that matches
  unfoldable pub chain_remove : D → List D → List D
  chain_remove d [] = []
  chain_remove d (x ∷ xs) = if ht_match d x then xs else x ∷ chain_remove d xs

  abbrev pub minus_if : Bool → ℤ → ℤ
  minus_if b n = if b then n -ℤ pos 1 else n

  -- The record is found: `left` is the chain without it, `collision` whether it had a second record.
  unfoldable pub unlink : Ht D → ℕ → List D → Bool → Ht D
  unlink t bucket left collision = record t {
    ht_table = set t.ht_table bucket left;
    ht_records = t.ht_records -ℤ pos 1;
    ht_collisions =
        minus_if collision (if is_empty left then t.ht_collisions else t.ht_collisions -ℤ pos 1);
  }

  unfoldable pub ht_remove : Ht D → D → Ht D
  unfolding chain_lookup chain_remove unlink
  ht_remove t d =
      let chain = chain_at t (bucket_of t d) in
      elim (chain_lookup d chain) [
        | none ↦ t
        | some x ↦ unlink t (bucket_of t d) (chain_remove d chain) (has_next chain)
      ]

  unfoldable pub ht_start : Ht D → Pos D
  ht_start t = if eqb_ℤ t.ht_records (pos 0) then (0, []) else (t.ht_head, chain_at t t.ht_head)

  -- The record, `none` for NULL, and the position after it
  unfoldable pub ht_next : Ht D → Pos D → Option D × Pos D
  ht_next t (b, []) = (none, (b, []))
  ht_next t (b, x ∷ xs) =
      (some x, if is_empty xs then next_bucket (suc b) (drop (suc b) t.ht_table) else (b, xs))
