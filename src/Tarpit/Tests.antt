-- ===== src/Tarpit/Tests.antt =====
-- The tarpit with naps of 15 seconds.
use mopher.Prelude.{◌≡◌, refl, true, some, arith, [], ◌∷◌}
use mopher.Prelude.Int.{pos, ◌+ℤ◌, ◌-ℤ◌}
use mopher.Var.{Vars, nil, cons, var, int, pointer}
use mopher.Vtable.{vtable_get}
use mopher.Exec.{ok, fail, null_pointer}
use mopher.Action.{acl_none}
use mopher.Exp.{constant, variable}
use mopher.Exp.Eval.{exp_eval}
use mopher.Exp.Sample.{registry, number}
use mopher.Tarpit.{slept, nap_loop, tarpit}
use mopher.Tarpit.Naps.{tarpit-delayed}

abbrev waiting : Vars
waiting =
    cons (var (some "milter_ctx") (pointer (some 1)))
      (cons (var (some "tarpit_delayed") (int (some (pos 20)))) nil)

three_naps :
    nap_loop (pos 15) (λ n. true) (λ n. true) 40 0 (pos 40)
    ≡ some (slept, pos 15 ∷ pos 15 ∷ pos 10 ∷ [])
unfolding nap_loop ◌-ℤ◌
three_naps = refl

-- A variable that is not set is a number without data.
unset_delay :
    (tarpit (pos 15) (λ n. true) (λ n. true) registry 40 (variable "$x") waiting).0
    ≡ fail null_pointer
unfolding tarpit
unset_delay = refl

forty : exp_eval registry (constant (number 40)) waiting ≡ (ok (some (number 40)), waiting)
unfolding exp_eval
forty = refl

connected : vtable_get waiting "milter_ctx" ≡ some (pointer (some 1))
unfolding vtable_get
connected = refl

delayed : vtable_get waiting "tarpit_delayed" ≡ some (int (some (pos 20)))
unfolding vtable_get
delayed = refl

tarpit-delayed_example :
    ((tarpit (pos 15) (λ n. true) (λ n. true) registry 40 (constant (number 40)) waiting).0
      ≡ ok (some acl_none))
    × (vtable_get
          (tarpit (pos 15) (λ n. true) (λ n. true) registry 40 (constant (number 40)) waiting).1
          "tarpit_delayed"
        ≡ some (int (some (pos 60))))
unfolding ◌+ℤ◌
tarpit-delayed_example =
    tarpit-delayed 15 (λ n. true) (λ n. true) (omega arith) (omega arith) registry (λ n. refl)
      (λ n. refl) 40 40 (constant (number 40)) waiting (omega arith) (omega arith) forty connected
      delayed
