-- ===== src/Tarpit/Naps.antt =====
-- How long the tarpit lasts.
use mopher.Prelude.{
  ℕ, zero, suc, ◌+◌, ◌-◌, ◌≤◌, ◌<◌, ◌^◌, ◌≡◌, refl, ◌∙◌, ap, String, Bool, true, false, Option,
  none, some, List, [], ◌∷◌, leb, arith, Bool-cases, inl, inr,
}
use mopher.Prelude.Int.{ℤ, pos, ◌+ℤ◌, ◌-ℤ◌, ltb_ℤ, to_int, to_int-fits}
use mopher.Var.{Data, Vars, var, int}
use mopher.Vtable.{vtable_get, vtable_set_new}
use mopher.Exec.{ok}
use mopher.Action.{acl_none}
use mopher.Exp.{Exp}
use mopher.Exp.Symbols.{Registry}
use mopher.Exp.Eval.{exp_eval}
use mopher.Vtable.Laws.{get-set_new}
use mopher.Tarpit.{slept, util_min, tarpit, nap_loop, tarpit_for, store_delay, after_naps}

abbrev pub total : List ℤ → ℤ
total [] = pos 0
total (x ∷ xs) = x +ℤ total xs

nap_shorter : (k i : ℕ) → k ≤ i → i < 2 ^ 31 → to_int (util_min (pos k) (pos i)) ≡ pos k
nap_shorter k i h l =
    let least : util_min (pos k) (pos i) ≡ pos k = ground arith in
    rw least (to_int-fits (pos k) (omega arith, omega arith))

nap_longer : (k i : ℕ) → i < k → i < 2 ^ 31 → to_int (util_min (pos k) (pos i)) ≡ pos i
nap_longer k i h l =
    let least : util_min (pos k) (pos i) ≡ pos i = ground arith in
    rw least (to_int-fits (pos i) (omega arith, omega arith))

pos_difference : (k i : ℕ) → i ≤ k → pos k -ℤ pos i ≡ pos (k - i)
unfolding ◌-ℤ◌
pos_difference k i h = ground arith

pos_sum : (a b : ℕ) → pos a +ℤ pos b ≡ pos (a + b)
unfolding ◌+ℤ◌
pos_sum a b = ground arith

store_delay-stored :
    (delay : ℤ) (m : Vars) {stored : ℤ}
    → vtable_get m "tarpit_delayed" ≡ some (int (some stored))
    → store_delay delay m
      ≡ (ok acl_none, vtable_set_new m "tarpit_delayed" (int (some (stored +ℤ delay))))
unfolding store_delay
store_delay-stored delay m old = rw (old, store_delay) refl

module _ (i : ℕ) (running progress : ℕ → Bool) (some_interval : 0 < i) (fits : i < 2 ^ 31) where
  last_nap :
      (fuel n k : ℕ)
      → k ≤ i
      → nap_loop (pos i) running progress (suc fuel) n (pos k) ≡ some (slept, pos k ∷ [])
  unfolding nap_loop
  last_nap fuel n k h =
      let nothing : ltb_ℤ (pos 0) (pos (k - k)) ≡ false = ground arith in
      rw (nap_shorter k i h fits, pos_difference k k (omega arith)) (rw nothing refl)

  next_nap :
      (fuel n k : ℕ) (naps : List ℤ)
      → running n ≡ true
      → progress n ≡ true
      → i < k
      → nap_loop (pos i) running progress fuel (suc n) (pos (k - i)) ≡ some (slept, naps)
      → nap_loop (pos i) running progress (suc fuel) n (pos k) ≡ some (slept, pos i ∷ naps)
  unfolding nap_loop
  next_nap fuel n k naps runs stays h e =
      let something : ltb_ℤ (pos 0) (pos (k - i)) ≡ true = ground arith in
      rw (nap_longer k i h fits, pos_difference k i (omega arith))
        (rw (something, runs, stays, e) (rw (nap_longer k i h fits) refl))

  -- If the milter runs and the client stays, fuel for as many naps as there are seconds is enough: the loop ends, and the naps add up to the delay.
  pub nap_loop-total :
      ((n : ℕ) → running n ≡ true)
      → ((n : ℕ) → progress n ≡ true)
      → (fuel n k : ℕ) → k ≤ fuel
      → 0 < k
      → (naps : List ℤ) × ((nap_loop (pos i) running progress fuel n (pos k) ≡ some (slept, naps))
          × (total naps ≡ pos k))
  nap_loop-total runs stays zero n k h l = ([], (ground arith, ground arith))
  nap_loop-total runs stays (suc fuel) n k h l = elim (Bool-cases (leb k i)) [
    | inl last ↦
        (pos k ∷ [], (last_nap fuel n k (ground arith), pos_sum k 0 ∙ ap pos (omega arith)))
    | inr more ↦
        let (naps, (e, sum)) =
          nap_loop-total runs stays fuel (suc n) (k - i) (ground arith) (ground arith) in
        (
          pos i ∷ naps,
          (
            next_nap fuel n k naps (runs n) (stays n) (ground arith) e,
            rw sum (pos_sum i (k - i) ∙ ap pos (ground arith)),
          ),
        )
  ]

  tarpit_for-stored :
      ((n : ℕ) → running n ≡ true)
      → ((n : ℕ) → progress n ≡ true)
      → (fuel k : ℕ) (m : Vars) {ctx : Data} {stored : ℤ} → k ≤ fuel
      → 0 < k
      → vtable_get m "milter_ctx" ≡ some ctx
      → vtable_get m "tarpit_delayed" ≡ some (int (some stored))
      → tarpit_for (pos i) running progress fuel (pos k) m
        ≡ (ok (some acl_none), vtable_set_new m "tarpit_delayed" (int (some (stored +ℤ pos k))))
  unfolding tarpit_for
  tarpit_for-stored runs stays fuel k m enough l ctx old =
      let something : ltb_ℤ (pos 0) (pos k) ≡ true = ground arith in
      let (naps, (e, sum)) = nap_loop-total runs stays fuel 0 k enough l in
      rw (something, ctx, e) (rw (store_delay-stored (pos k) m old, after_naps) refl)

  module _ (r : Registry) where
    -- If the interval of the tarpit is at least a second and fits an int, the milter runs and the client stays, the tarpit ends for every delay of at least a second, with fuel for as many naps as there are seconds, passes the rule, and adds the delay to what was counted.
    pub tarpit-delayed :
        ((n : ℕ) → running n ≡ true)
        → ((n : ℕ) → progress n ≡ true)
        → (fuel k : ℕ) (e : Exp) (m : Vars) {name : Option String} {m₁ : Vars} {ctx : Data}
          {stored : ℤ}
        → k ≤ fuel
        → 0 < k
        → exp_eval r e m ≡ (ok (some (var name (int (some (pos k))))), m₁)
        → vtable_get m₁ "milter_ctx" ≡ some ctx
        → vtable_get m₁ "tarpit_delayed" ≡ some (int (some stored))
        → (tarpit (pos i) running progress r fuel e m).0 ≡ ok (some acl_none)
          × (vtable_get (tarpit (pos i) running progress r fuel e m).1 "tarpit_delayed"
              ≡ some (int (some (stored +ℤ pos k))))
    unfolding tarpit
    tarpit-delayed runs stays fuel k e m {m₁} {stored} enough l value ctx old =
        rw (value, tarpit_for-stored runs stays fuel k m₁ enough l ctx old)
          (refl, get-set_new m₁ "tarpit_delayed" "tarpit_delayed" (int (some (stored +ℤ pos k))))

idle_nap : (k : ℕ) → to_int (util_min (pos k) (pos 0)) ≡ pos 0
idle_nap k =
    let least : util_min (pos k) (pos 0) ≡ pos 0 = ground arith in
    rw least (to_int-fits (pos 0) (omega arith, omega arith))

-- With an interval of 0 the loop runs out of any fuel.
nap_loop_idle :
    (running progress : ℕ → Bool)
    → ((n : ℕ) → running n ≡ true)
    → ((n : ℕ) → progress n ≡ true)
    → (fuel n k : ℕ) → 0 < k
    → nap_loop (pos 0) running progress fuel n (pos k) ≡ none
unfolding nap_loop
nap_loop_idle running progress runs stays zero n k h = refl
nap_loop_idle running progress runs stays (suc fuel) n k h =
    let something : ltb_ℤ (pos 0) (pos (k - 0)) ≡ true = ground arith in
    let rest = nap_loop_idle running progress runs stays fuel (suc n) (k - 0) (omega arith) in
    rw (idle_nap k, pos_difference k 0 (omega arith)) (rw (something, runs n, stays n, rest) refl)
