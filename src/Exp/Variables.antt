-- ===== src/Exp/Variables.antt =====
-- The variables of the access list (`acl_variable_assign`, `acl_variable_get` of src/acl.c), as
-- `exp_assign` and `exp_eval_variable` of src/exp.c use them.
use native.Mathlib.Omega.{arith}
use mopher.Prelude.{
  ◌≡◌, refl, sym, ap, ◌∙◌, eq_refl, String, Bool, true, false, Option, none, some, str_eq,
  if◌then◌else◌,
}
use mopher.Var.{Var, Vars, table, var, v_data}
use mopher.Var.Cast.{copies}
use mopher.Vtable.{vtable_lookup, vtable_set_new}
use mopher.Vtable.Laws.{lookup-set_new}
use mopher.Exec.{Exec, Result, ok, fail, continue, pure, ◌>>=◌}
use mopher.Exp.{Exp, assign, variable, exp_empty}
use mopher.Exp.Symbols.{
  Registry, without_sign, acl_variables, acl_variable_assign, acl_variable_get,
}
use mopher.Exp.Eval.{exp_eval, exp_eval_variable}

-- What a table of variables makes of a name
abbrev pub value_in : Vars → String → Option Var
value_in vs name =
    some (elim (vtable_lookup vs (without_sign name)) [ none ↦ exp_empty | some v ↦ v ])

-- The table after an assignment
abbrev pub assigned : Vars → String → Var → Vars
assigned vs name v = vtable_set_new vs (without_sign name) (v_data v)

value_in-assigned :
    (vs : Vars) (x y : String) (v : Var)
    → value_in (assigned vs x v) y ≡ (
        if str_eq (without_sign x) (without_sign y)
        then some (var (some (without_sign x)) (v_data v))
        else value_in vs y)
value_in-assigned vs x y v =
    ground (arith, lookup-set_new vs (without_sign x) (without_sign y) (v_data v))

-- Reading a variable where the table is known
exp_eval_variable-value :
    (m vs : Vars) (y : String)
    → acl_variables m ≡ (ok vs, m)
    → exp_eval_variable y m ≡ (ok (value_in vs y), m)
unfolding exp_eval_variable acl_variable_get
exp_eval_variable-value m vs y h = rw h (ground arith)

exp_eval_variable-result :
    (m vs : Vars) (y : String)
    → (acl_variables m).0 ≡ ok vs
    → (exp_eval_variable y m).0 ≡ ok (value_in vs y)
unfolding exp_eval_variable acl_variable_get
exp_eval_variable-result m vs y h = rw h (ground arith)

acl_variables-set_new :
    (m vs : Vars)
    → acl_variables (vtable_set_new m "VARIABLES" (table vs))
      ≡ (ok vs, vtable_set_new m "VARIABLES" (table vs))
unfolding acl_variables
acl_variables-set_new m vs = refl

-- What `acl_variable_assign` does with the table
abbrev pub store : String → Var → Vars → Exec Vars Bool
store x v vs m =
    if copies (v_data v)
    then (ok true, vtable_set_new m "VARIABLES" (table (assigned vs x v)))
    else (ok false, m)

store-table :
    (t : Result Vars) (m m₁ : Vars) (x : String) (v : Var)
    → continue t (store x v) m ≡ (ok true, m₁)
    → (vs : Vars) × ((t ≡ ok vs) × (m₁ ≡ vtable_set_new m "VARIABLES" (table (assigned vs x v))))
store-table (fail e) m m₁ x v h = cc
store-table (ok vs) m m₁ x v h = (vs, (refl, ground arith))

acl_variable_assign-table :
    (m m₁ : Vars) (x : String) (v : Var)
    → acl_variable_assign x v m ≡ (ok true, m₁)
    → (vs : Vars) × (((acl_variables m).0 ≡ ok vs)
        × (acl_variables m₁ ≡ (ok (assigned vs x v), m₁)))
unfolding acl_variable_assign
acl_variable_assign-table m m₁ x v h =
    let (vs, (e, k)) = store-table (acl_variables m).0 (acl_variables m).1 m₁ x v h in
    (vs, (e, rw k (acl_variables-set_new (acl_variables m).1 (assigned vs x v))))

abbrev pub assign_value : String → Option Var → Exec Vars (Option Var)
assign_value x none = pure none
assign_value x (some v) = do done ← acl_variable_assign x v; pure (if done then some v else none)

abbrev keep_value : Var → Bool → Exec Vars (Option Var)
keep_value w done = pure (if done then some w else none)

done_value :
    (t : Result Bool) (m m₁ : Vars) (w v : Var)
    → continue t (keep_value w) m ≡ (ok (some v), m₁)
    → (w ≡ v) × ((t ≡ ok true) × (m ≡ m₁))
done_value (fail e) m m₁ w v h = cc
done_value (ok true) m m₁ w v h = (cc, (refl, cc))
done_value (ok false) m m₁ w v h = cc

assign_value-table :
    (t : Result (Option Var)) (m m₁ : Vars) (x : String) (v : Var)
    → continue t (assign_value x) m ≡ (ok (some v), m₁)
    → (vs : Vars) × ((t ≡ ok (some v))
        × (((acl_variables m).0 ≡ ok vs) × (acl_variables m₁ ≡ (ok (assigned vs x v), m₁))))
assign_value-table (fail e) m m₁ x v h = cc
assign_value-table (ok none) m m₁ x v h = cc
assign_value-table (ok (some w)) m m₁ x v h =
    let (same, (done, after)) =
      done_value (acl_variable_assign x w m).0 (acl_variable_assign x w m).1 m₁ w v h in
    let (vs, (before, k)) = acl_variable_assign-table m m₁ x w cc in
    (vs, (cc, (before, rw same at k)))

module _ (r : Registry) where
  assign-table :
      (x : String) (e : Exp) (m m₁ : Vars) (v : Var)
      → exp_eval r (assign x e) m ≡ (ok (some v), m₁)
      → (vs : Vars) × (((exp_eval r e m).0 ≡ ok (some v))
          × (((acl_variables (exp_eval r e m).1).0 ≡ ok vs)
              × (acl_variables m₁ ≡ (ok (assigned vs x v), m₁))))
  unfolding exp_eval
  assign-table x e m m₁ v h = assign_value-table (exp_eval r e m).0 (exp_eval r e m).1 m₁ x v h

  -- If an assignment has a value, the variable holds the data of that value afterwards.
  pub assign-variable :
      (x : String) (e : Exp) (m : Vars) {m₁ : Vars} {v : Var}
      → exp_eval r (assign x e) m ≡ (ok (some v), m₁)
      → exp_eval r (variable x) m₁ ≡ (ok (some (var (some (without_sign x)) (v_data v))), m₁)
  unfolding exp_eval
  assign-variable x e m {m₁} {v} h =
      let (vs, (t, (before, after))) = assign-table x e m m₁ v h in
      let same = eq_refl (without_sign x) in
      exp_eval_variable-value m₁ (assigned vs x v) x after
      ∙ ap (λ o. (ok o, m₁)) (value_in-assigned vs x x v ∙ rw same refl)

  -- If an assignment has a value, a variable of another name reads as it did after the right hand side.
  pub assign-other :
      (x y : String) (e : Exp) (m : Vars) {m₁ : Vars} {v : Var}
      → exp_eval r (assign x e) m ≡ (ok (some v), m₁)
      → str_eq (without_sign x) (without_sign y) ≡ false
      → (exp_eval r (variable y) m₁).0 ≡ (exp_eval r (variable y) (exp_eval r e m).1).0
  unfolding exp_eval
  assign-other x y e m {m₁} {v} h n =
      let (vs, (t, (before, after))) = assign-table x e m m₁ v h in
      let new = exp_eval_variable-result m₁ (assigned vs x v) y (ap (λ p. p.0) after) in
      let old = exp_eval_variable-result (exp_eval r e m).1 vs y before in
      new ∙ (ap ok (value_in-assigned vs x y v ∙ rw n refl) ∙ sym old)
