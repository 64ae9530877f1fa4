-- ===== src/Acl/Rules.antt =====
-- Which rules of a table are evaluated, and what a table can answer.
use mopher.Prelude.{
  ℕ, zero, suc, String, ◌≡◌, refl, false, List, [], ◌∷◌, Bool-cases, Option-cases, inl, inr, ◌⊎◌,
}
use mopher.Exec.{Result, ok, fail, pure, continue}
use mopher.Exec.Post.{Post, After, Post-bind}
use mopher.Stage.{Stage, unknown}
use mopher.Action.{ActionType, acl_error, acl_none, is_allowed}
use mopher.Acl.{
  AclEnv, AclState, Acl, Rule, Truth, holds, fails, undecided, jump, handle, respond, apply_rule,
  choose, exp_is_true, acl_rules, acl_table, acl_level, acl, jump_result, aa_type,
}

module _ (a : AclEnv) where
  open a use {env, Other, acl_tables}
  open env use {Exp}

  respond-jump :
      (rest rest' : Acl a ActionType) (stage : Stage) (i : ℕ) (r : Rule Exp Other) (x : ActionType)
      → respond a rest stage i r (jump_result x) ≡ respond a rest' stage i r (jump_result x)
  unfolding respond
  respond-jump rest rest' stage i r acl_none = refl
  respond-jump rest rest' stage i r _ = refl

  abbrev jumped : Result ActionType → AclState a → Result ActionType × AclState a
  jumped x s = continue x (λ y. pure (jump_result y)) s

  continue-jump :
      (rest rest' : Acl a ActionType) (stage : Stage) (i : ℕ) (r : Rule Exp Other)
      (x : Result ActionType) (s : AclState a)
      → continue (jumped x s).0 (respond a rest stage i r) (jumped x s).1
        ≡ continue (jumped x s).0 (respond a rest' stage i r) (jumped x s).1
  continue-jump rest rest' stage i r (ok x) s = rw (respond-jump rest rest' stage i r x)
  continue-jump rest rest' stage i r (fail e) s = refl

  -- A jump whose expression holds is the last rule that is evaluated: the rules behind it do not
  -- matter, whatever the table answers that is jumped to.
  pub acl_rules-jump :
      (self : String → Acl a ActionType) (stage : Stage) (i : ℕ) (r : Rule Exp Other)
      (rs rs' : List (Rule Exp Other)) (table : String) (s s₁ : AclState a)
      → r.action ≡ jump table
      → exp_is_true a r.expression s ≡ (ok holds, s₁)
      → acl_rules a self stage i (r ∷ rs) s ≡ acl_rules a self stage i (r ∷ rs') s
  unfolding acl_rules choose apply_rule handle
  acl_rules-jump self stage i r rs rs' table s s₁ act e =
      rw e (elim (Bool-cases (is_allowed (aa_type r.action) stage)) [
        | inl y ↦ rw y (
            rw (act, handle)
              (continue-jump (acl_rules a self stage (suc i) rs)
                (acl_rules a self stage (suc i) rs') stage i r (self table s₁).0 (self table s₁).1))
        | inr n ↦ rw n refl
      ])

  -- No action is allowed in the stage of an unknown command.
  never_allowed : (x : ActionType) → is_allowed x unknown ≡ false
  unfolding is_allowed
  never_allowed acl_error = refl
  never_allowed _ = refl

  -- Nothing was decided, or something failed.
  abbrev pub IsSilent : ActionType → Type 0
  IsSilent x = (x ≡ acl_none) ⊎ (x ≡ acl_error)

  After-any : {A : Type 0} (x : Result A) (s : AclState a) → After x s (λ t s₁. Unit {0})
  After-any (ok x) s = tt
  After-any (fail x) s = tt

  choose-unknown :
      (self : String → Acl a ActionType) (rest : Acl a ActionType) (i : ℕ) (r : Rule Exp Other)
      (t : Truth) (s : AclState a)
      → Post rest s (λ x s'. IsSilent x)
      → Post (choose a t self rest unknown i r) s (λ x s'. IsSilent x)
  unfolding choose apply_rule
  choose-unknown self rest i r fails s h = h
  choose-unknown self rest i r undecided s h = inr refl
  choose-unknown self rest i r holds s h = rw (never_allowed (aa_type r.action)) (inr refl)

  rules-unknown :
      (self : String → Acl a ActionType) (rs : List (Rule Exp Other)) (i : ℕ) (s : AclState a)
      → Post (acl_rules a self unknown i rs) s (λ x s'. IsSilent x)
  unfolding acl_rules
  rules-unknown self [] i s = inl refl
  rules-unknown self (r ∷ rs) i s =
      let rest = acl_rules a self unknown (suc i) rs in
      Post-bind (exp_is_true a r.expression) (λ t. choose a t self rest unknown i r) s
        (λ t s₁. Unit {0}) (λ x s'. IsSilent x)
        (After-any (exp_is_true a r.expression s).0 (exp_is_true a r.expression s).1)
        λ t s₁ _. choose-unknown self rest i r t s₁ (rules-unknown self rs (suc i) s₁)

  level-unknown :
      (n : ℕ) (name : String) (s : AclState a)
      → Post (acl_level a n unknown name) s (λ x s'. IsSilent x)
  unfolding acl_level acl_table
  level-unknown zero name s = inr refl
  level-unknown (suc n) name s = elim (Option-cases (acl_tables name)) [
    | inl e ↦ rw e (inl refl)
    | inr (rules, e) ↦ rw e (rules-unknown (acl_level a n unknown) rules 1 s)
  ]

  -- In the stage of an unknown SMTP command the list answers ACL_NONE or ACL_ERROR: the first rule that
  -- matches ends in an error, whatever its action is.
  pub acl-unknown :
      (name : String) (depth : ℕ) (s : AclState a)
      → Post (acl a unknown name depth) s (λ x s'. IsSilent x)
  unfolding acl
  acl-unknown name depth s = level-unknown _ name s
