-- ===== src/Exp/Pure.antt =====
-- Expressions whose evaluation (`exp_eval` of src/exp.c) leaves the mailspec as it is.
use native.Mathlib.Omega.{arith}
use mopher.Prelude.{◌≡◌, refl, ◌∙◌, Bool, true, false, ◌&&◌, Option, none, some, if◌then◌else◌}
use mopher.Var.{Var, Vars, var_true}
use mopher.Exec.{Exec, Result, ok, fail, continue, ◌>>=◌}
use mopher.Exp.{
  Exp, Exps, parentheses, constant, exp_list, symbol, variable, macro, call_empty, call, assign,
  is_set, not_op, is_null_op, and_op, or_op, operation, ternary, end, item,
}
use mopher.Exp.Symbols.{Registry}
use mopher.Exp.Eval.{
  exp_eval, exp_eval_list, exp_isset, and_right, append_to, left_holds, left_fails,
}

-- Neither an assignment nor a symbol, a variable or a macro is evaluated. `isset` evaluates no operand.
unfoldable mutual
  pub is_pure : Exp → Bool
  is_pure (parentheses e) = is_pure e
  is_pure (constant v) = true
  is_pure (exp_list es) = are_pure es
  is_pure (symbol name) = false
  is_pure (variable name) = false
  is_pure (macro name) = false
  is_pure (call_empty name) = true
  is_pure (call name e) = is_pure e
  is_pure (assign name e) = false
  is_pure (is_set e) = true
  is_pure (not_op e) = is_pure e
  is_pure (is_null_op e) = is_pure e
  is_pure (and_op l r) = is_pure l && is_pure r
  is_pure (or_op l r) = is_pure l && is_pure r
  is_pure (operation op l r) = is_pure l && is_pure r
  is_pure (ternary c l r) = is_pure c && (is_pure l && is_pure r)

  pub are_pure : Exps → Bool
  are_pure end = true
  are_pure (item e es) = is_pure e && are_pure es

abbrev Keeps : {A : Type 0} → Exec Vars A → Type 0
Keeps run = (m : Vars) → (run m).1 ≡ m

continue-Keeps :
    {A B : Type 0} (x : Result A) (f : A → Exec Vars B) (m m₁ : Vars)
    → m₁ ≡ m
    → ((a : A) → Keeps (f a))
    → (continue x f m₁).1 ≡ m
continue-Keeps (ok a) f m m₁ h k = k a m₁ ∙ h
continue-Keeps (fail e) f m m₁ h k = h

bind-Keeps :
    {A B : Type 0} (x : Exec Vars A) (f : A → Exec Vars B)
    → Keeps x
    → ((a : A) → Keeps (f a))
    → Keeps (x >>= f)
bind-Keeps x f h k m = continue-Keeps (x m).0 f m (x m).1 (h m) k

both : (a b : Bool) → (a && b) ≡ true → (a ≡ true) × (b ≡ true)
both a b h = (ground arith, ground arith)

branch-Keeps :
    {A : Type 0} (b : Bool) (x y : Exec Vars A) → Keeps x → Keeps y → Keeps (if b then x else y)
branch-Keeps true x y h k = h
branch-Keeps false x y h k = k

value-Keeps :
    {A B : Type 0} (n : Exec Vars A) (f : B → Exec Vars A)
    → Keeps n
    → ((v : B) → Keeps (f v))
    → (o : Option B) → Keeps (elim o [ none ↦ n | some v ↦ f v ])
value-Keeps n f h k none = h
value-Keeps n f h k (some v) = k v

and_right-Keeps : (b : Bool) (o : Option Var) → Keeps (and_right b o)
and_right-Keeps b none m = refl
and_right-Keeps b (some v) m = ground arith

append_to-Keeps : (o : Option Var) (vs : Vars) → Keeps (append_to o vs)
append_to-Keeps none vs m = refl
append_to-Keeps (some v) vs m = refl

module _ (r : Registry) where
  mutual
    unfolding exp_eval is_pure exp_isset

    pure-Keeps : (e : Exp) → is_pure e ≡ true → (m : Vars) → (exp_eval r e m).1 ≡ m
    pure-Keeps (parentheses e) h m = pure-Keeps e h m
    pure-Keeps (constant v) h m = refl
    pure-Keeps (exp_list es) h m =
        bind-Keeps (exp_eval_list r es) _ (pure_list-Keeps es h) (λ vs s. refl) m
    pure-Keeps (symbol name) h m = cc
    pure-Keeps (variable name) h m = cc
    pure-Keeps (macro name) h m = cc
    pure-Keeps (call_empty name) h m =
        value-Keeps _ _ (λ s. refl) (λ af s. refl) (r.acl_functions name) m
    pure-Keeps (call name e) h m =
        value-Keeps _ _ (λ s. refl)
          (λ af.
            bind-Keeps (exp_eval r e) _ (pure-Keeps e h)
              (value-Keeps _ _ (λ s. refl) (λ v s. refl)))
          (r.acl_functions name) m
    pure-Keeps (assign name e) h m = cc
    pure-Keeps (is_set e) h m = refl
    pure-Keeps (not_op e) h m = bind-Keeps (exp_eval r e) _ (pure-Keeps e h) (λ o s. refl) m
    pure-Keeps (is_null_op e) h m = bind-Keeps (exp_eval r e) _ (pure-Keeps e h) (λ o s. refl) m
    pure-Keeps (and_op a b) h m =
        let (x, y) = both (is_pure a) (is_pure b) h in
        bind-Keeps (exp_eval r a) _ (pure-Keeps a x)
          (value-Keeps _ _ (λ s. refl)
            (λ v.
              branch-Keeps (left_fails v) _ _ (λ s. refl)
                (bind-Keeps (exp_eval r b) _ (pure-Keeps b y) (and_right-Keeps _))))
          m
    pure-Keeps (or_op a b) h m =
        let (x, y) = both (is_pure a) (is_pure b) h in
        bind-Keeps (exp_eval r a) _ (pure-Keeps a x)
          (value-Keeps _ _ (λ s. refl)
            (λ v. branch-Keeps (left_holds v) _ _ (λ s. refl) (pure-Keeps b y)))
          m
    pure-Keeps (operation op a b) h m =
        let (x, y) = both (is_pure a) (is_pure b) h in
        bind-Keeps (exp_eval r a) _ (pure-Keeps a x)
          (λ l. bind-Keeps (exp_eval r b) _ (pure-Keeps b y) (λ o s. refl)) m
    pure-Keeps (ternary c a b) h m =
        let (x, rest) = both (is_pure c) (is_pure a && is_pure b) h in
        let (y, z) = both (is_pure a) (is_pure b) rest in
        bind-Keeps (exp_eval r c) _ (pure-Keeps c x)
          (value-Keeps _ _ (λ s. refl)
            (λ v. branch-Keeps (var_true v) _ _ (pure-Keeps a y) (pure-Keeps b z)))
          m

    pure_list-Keeps : (es : Exps) → are_pure es ≡ true → (m : Vars) → (exp_eval_list r es m).1 ≡ m
    pure_list-Keeps end h m = refl
    pure_list-Keeps (item e es) h m =
        let (x, y) = both (is_pure e) (are_pure es) h in
        bind-Keeps (exp_eval r e) _ (pure-Keeps e x)
          (λ o. bind-Keeps (exp_eval_list r es) _ (pure_list-Keeps es y) (append_to-Keeps o)) m

  -- An expression without assignments, symbols, variables and macros leaves the mailspec as it is.
  pub exp_eval-is_pure : (e : Exp) → is_pure e ≡ true → (m : Vars) → (exp_eval r e m).1 ≡ m
  exp_eval-is_pure e h m = pure-Keeps e h m
