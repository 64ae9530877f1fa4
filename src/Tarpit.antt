-- ===== src/Tarpit.antt =====
-- The tarpit (src/tarpit.c), which makes a client wait. The naps are what is asked of `sleep`; whether the
-- milter still runs after a nap, and whether `smfi_progress` then reaches the client, are functions of the
-- number of the nap. A loop that does not end runs out of fuel, and its result is `none`.
pub mod Naps
mod Tests
use mopher.Prelude.{ℕ, zero, suc, Bool, not, Option, none, some, List, [], ◌∷◌, if◌then◌else◌}
use mopher.Prelude.Int.{ℤ, pos, ◌+ℤ◌, ◌-ℤ◌, ltb_ℤ, to_int}
use mopher.Var.{Data, Var, Vars, var, int}
use mopher.Vtable.{vtable_get, vtable_set_new}
use mopher.Exec.{Exec, Result, ok, fail, null_pointer, undefined, pure, raise, ◌>>=◌}
use mopher.Action.{ActionType, acl_none, acl_error, acl_tempfail}
use mopher.Exp.{Exp}
use mopher.Exp.Symbols.{Registry}
use mopher.Exp.Eval.{exp_eval}

pub data End : Type 0 where
  slept stopped dropped : End

-- `UTIL_MIN`
abbrev pub util_min : ℤ → ℤ → ℤ
util_min a b = if ltb_ℤ a b then a else b

-- A table of variables, and the table where "tarpit_delayed" has grown: other data than a number would be
-- read as one.
unfoldable pub store_delay : ℤ → Exec Vars ActionType
unfolding vtable_get vtable_set_new
store_delay delay m = elim (vtable_get m "tarpit_delayed") [
  | none ↦ (ok acl_none, vtable_set_new m "tarpit_delayed" (int (some delay)))
  | some d ↦ grown d
]
  where
    grown : Data → Result ActionType × Vars
    grown (int (some stored)) =
        (ok acl_none, vtable_set_new m "tarpit_delayed" (int (some (stored +ℤ delay))))
    grown d = (fail undefined, m)

-- `cf_tarpit_progress_interval`, `milter_running` and `smfi_progress`
module _ (interval : ℤ) (running progress : ℕ → Bool) where
  -- The loop, from its nap number `n` on; `nap` is an `int`.
  unfoldable pub nap_loop : ℕ → ℕ → ℤ → Option (End × List ℤ)
  unfolding to_int
  nap_loop zero n remaining = none
  nap_loop (suc fuel) n remaining =
      let nap = to_int (util_min remaining interval) in
      let rest = nap_loop fuel (suc n) (remaining -ℤ nap) in
      if not (ltb_ℤ (pos 0) (remaining -ℤ nap))
      then some (slept, nap ∷ [])
      else if not (running n)
      then some (stopped, nap ∷ [])
      else if not (progress n)
      then some (dropped, nap ∷ [])
      else elim rest [ none ↦ none | some (end, naps) ↦ some (end, nap ∷ naps) ]

  abbrev pub after_naps : ℤ → Option (End × List ℤ) → Exec Vars (Option ActionType)
  after_naps delay none = pure none
  after_naps delay (some (slept, naps)) = do action ← store_delay delay; pure (some action)
  after_naps delay (some (stopped, naps)) = pure (some acl_error)
  after_naps delay (some (dropped, naps)) = pure (some acl_tempfail)

  unfoldable pub tarpit_for : ℕ → ℤ → Exec Vars (Option ActionType)
  unfolding nap_loop store_delay vtable_get
  tarpit_for fuel delay m =
      if not (ltb_ℤ (pos 0) delay)
      then (ok (some acl_none), m)
      else elim (vtable_get m "milter_ctx") [
        | none ↦ (ok (some acl_error), m)
        | some ctx ↦ after_naps delay (nap_loop fuel 0 delay) m
      ]

  module _ (r : Registry) where
    abbrev pub delay_of : ℕ → Data → Exec Vars (Option ActionType)
    delay_of fuel (int none) = raise null_pointer
    delay_of fuel (int (some delay)) = tarpit_for fuel delay
    delay_of fuel d = pure (some acl_error)

    unfoldable pub tarpit : ℕ → Exp → Exec Vars (Option ActionType)
    unfolding exp_eval tarpit_for
    tarpit fuel e = do
      v ← exp_eval r e
      elim v [ none ↦ pure (some acl_error) | some (var name d) ↦ delay_of fuel d ]
