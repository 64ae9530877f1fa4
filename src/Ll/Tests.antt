-- ===== src/Ll/Tests.antt =====
-- A list of two numbers.
use mopher.Prelude.{ℕ, ◌+◌, ◌≡◌, refl, arith, Option, none, some, [], ◌∷◌}
use mopher.Ll.{
  Entry, Memory, Ll, ll_init, ll_insert_head, ll_insert_tail, ll_remove_head, ll_walk, ll_clear,
}
use mopher.Ll.Chain.{
  Represents, Inserted, Removed, ll_insert_head-Represents, ll_insert_tail-Inserted,
  ll_remove_head-Removed, ll_walk-visit,
}

abbrev empty : Memory ℕ
empty = record { entry = λ p. none; unused = 5 }

none_yet : Represents empty ll_init []
none_yet = ([], (refl, refl, refl, tt, tt))

abbrev one : Memory ℕ × Ll
unfolding ll_insert_head
one = ll_insert_head empty ll_init 7

one-Represents : Represents one.0 one.1 (7 ∷ [])
unfolding one
one-Represents = ll_insert_head-Represents empty ll_init 7 [] none_yet

ll_insert_tail-Inserted_example : Inserted (ll_insert_tail one.0 one.1 8) (7 ∷ 8 ∷ [])
unfolding one
ll_insert_tail-Inserted_example = ll_insert_tail-Inserted one.0 one.1 8 (7 ∷ []) one-Represents

ll_remove_head-Removed_example : Removed (ll_remove_head one.0 one.1) 7 []
unfolding one
ll_remove_head-Removed_example = ll_remove_head-Removed one.0 one.1 7 [] one-Represents

sum_walked : ll_walk (λ (x s : ℕ). x + s) one.0 2 one.1 3 ≡ some 10
unfolding one
sum_walked =
    ll_walk-visit (λ (x s : ℕ). x + s) one.0 2 one.1 (7 ∷ []) 3 one-Represents (omega arith)

-- The list is empty, and its entry is gone.
abbrev after_clear : Option (Memory ℕ × Ll) → Option (Entry ℕ) × Option Ll
after_clear none = (none, none)
after_clear (some (m, ll)) = (m.entry 5, some ll)

cleared : after_clear (ll_clear one.0 2 one.1) ≡ (none, some ll_init)
unfolding one ll_clear
cleared = refl
