-- ===== src/Ll.antt =====
-- Linked lists (src/ll.c) in a memory of entries: an address leads to an entry until it is freed, and `malloc`
-- returns an address that was never used. The outer `none` is a read or a write where no entry is. `ll_size`
-- is taken without bound.
pub mod Chain
mod Tests
use mopher.Prelude.{
  ℕ, zero, suc, ◌+◌, ◌-◌, Bool, Option, none, some, List, [], ◌∷◌, ◌==◌, if◌then◌else◌,
}

module _ (A : Type 0) where
  pub record Entry : Type 0 where
    pub lle_data : A
    pub lle_next : Option ℕ

  pub record Memory : Type 0 where
    pub entry : ℕ → Option Entry
    pub unused : ℕ

pub record Ll : Type 0 where
  pub ll_size : ℕ
  pub ll_head : Option ℕ
  pub ll_tail : Option ℕ

abbrev pub or_else : Option ℕ → Option ℕ → Option ℕ
or_else none q = q
or_else (some p) q = some p

-- `ll->ll_tail = NULL` where the list is empty now
abbrev pub tail_after : Option ℕ → Option ℕ → Option ℕ
tail_after none tail = none
tail_after (some p) tail = tail

abbrev pub ll_init : Ll
ll_init = record { ll_size = 0; ll_head = none; ll_tail = none }

module _ {A : Type 0} where
  abbrev pub update : (ℕ → Option (Entry A)) → ℕ → Option (Entry A) → ℕ → Option (Entry A)
  update f p e q = if q == p then e else f q

  abbrev pub write : Memory A → ℕ → Option (Entry A) → Memory A
  write m p e = record m { entry = update m.entry p e }

  -- The address of a new entry is `unused`.
  abbrev pub malloc : Memory A → Entry A → Memory A
  malloc m e = record { entry = update m.entry m.unused (some e); unused = suc m.unused }

  unfoldable pub ll_insert_head : Memory A → Ll → A → Memory A × Ll
  ll_insert_head m ll x =
      let p = m.unused in
      (
        malloc m (record { lle_data = x; lle_next = ll.ll_head }),
        record {
          ll_size = suc ll.ll_size;
          ll_head = some p;
          ll_tail = or_else ll.ll_tail (some p);
        },
      )

  -- `ll->ll_tail->lle_next = entry`
  abbrev pub link : Option ℕ → ℕ → Memory A → Option (Memory A)
  link none p m = some m
  link (some t) p m = elim (m.entry t) [
    | none ↦ none
    | some e ↦ some (write m t (some (record e { lle_next = some p })))
  ]

  unfoldable pub ll_insert_tail : Memory A → Ll → A → Option (Memory A × Ll)
  ll_insert_tail m ll x =
      let p = m.unused in
      elim (link ll.ll_tail p (malloc m (record { lle_data = x; lle_next = none }))) [
        | none ↦ none
        | some m' ↦ some (
          m',
          record {
            ll_size = suc ll.ll_size;
            ll_head = or_else ll.ll_head (some p);
            ll_tail = some p;
          },
        )
      ]

  abbrev pub take_head : Memory A → Ll → Option ℕ → Option (Option A × Memory A × Ll)
  take_head m ll none = none
  take_head m ll (some p) = elim (m.entry p) [
    | none ↦ none
    | some e ↦ some (
      some e.lle_data,
      write m p none,
      record {
        ll_size = ll.ll_size - 1;
        ll_head = e.lle_next;
        ll_tail = tail_after e.lle_next ll.ll_tail;
      },
    )
  ]

  -- The inner `none` is the NULL of an empty list.
  unfoldable pub ll_remove_head : Memory A → Ll → Option (Option A × Memory A × Ll)
  ll_remove_head m ll = if ll.ll_size == 0 then some (none, m, ll) else take_head m ll ll.ll_head

  -- The data, NULL at the end, and the next position
  unfoldable pub ll_next : Memory A → Option ℕ → Option (Option A × Option ℕ)
  ll_next m none = some (none, none)
  ll_next m (some p) = elim (m.entry p) [
    | none ↦ none
    | some e ↦ some (some e.lle_data, e.lle_next)
  ]

  -- The loop from a position, on fuel; `none` is no fuel too.
  unfoldable pub walk_from : {S : Type 0} → (A → S → S) → Memory A → ℕ → Option ℕ → S → Option S
  walk_from callback m zero pos s = none
  walk_from callback m (suc n) none s = some s
  walk_from callback m (suc n) (some p) s = elim (m.entry p) [
    | none ↦ none
    | some e ↦ walk_from callback m n e.lle_next (callback e.lle_data s)
  ]

  unfoldable pub ll_walk : {S : Type 0} → (A → S → S) → Memory A → ℕ → Ll → S → Option S
  unfolding walk_from
  ll_walk callback m n ll s = walk_from callback m n ll.ll_head s

  -- The loop that frees the entries, on fuel
  unfoldable pub clear_from : Memory A → ℕ → Option ℕ → Option (Memory A)
  clear_from m zero pos = none
  clear_from m (suc n) none = some m
  clear_from m (suc n) (some p) = elim (m.entry p) [
    | none ↦ none
    | some e ↦ clear_from (write m p none) n e.lle_next
  ]

  unfoldable pub ll_clear : Memory A → ℕ → Ll → Option (Memory A × Ll)
  unfolding clear_from
  ll_clear m n ll = elim (clear_from m n ll.ll_head) [ none ↦ none | some m' ↦ some (m', ll_init) ]
