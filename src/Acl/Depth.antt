-- ===== src/Acl/Depth.antt =====
-- The recursion of tables that call or jump to tables (src/acl.c).
use mopher.Prelude.{
  ℕ, zero, suc, ◌+◌, ◌-◌, ◌<◌, String, Bool, true, false, ◌≡◌, ◌≢◌, ◌⊎◌, refl, ◌∙◌, none, some,
  List, ◌∷◌, arith, ltb, inl, inr, if◌then◌else◌,
}
use mopher.Exec.{ok}
use mopher.Stage.{Stage, unknown, is_any_or_init}
use mopher.Action.{ActionType, acl_error, acl_continue, acl_call, is_allowed}
use mopher.Acl.{
  AclEnv, Plain, Rule, plain, call, jump, AclState, Acl, handle, respond, finish, reply_to,
  conclude, record_match, apply_rule, exp_is_true, acl_rules, acl_level, max_recursion, acl,
  aa_type,
}

module _ (a : AclEnv) where
  open a use {env, Other, acl_tables}
  open env use {Exp}

  -- Tables of which each begins with a call of the next one, and the last one with `continue`
  pub record IsChain (name : ℕ → String) (n : ℕ) : Type 0 where
    pub calls :
        (i : ℕ)
        → i < n
        → (r : Rule Exp Other) × ((rs : List (Rule Exp Other)) × ((acl_tables (name i)
                ≡ some (r ∷ rs))
              × (r.expression ≡ none)
              × (r.reply ≡ none)
              × (r.action ≡ call (name (suc i)))))
    pub ends :
        (r : Rule Exp Other) × ((rs : List (Rule Exp Other)) × ((acl_tables (name n)
              ≡ some (r ∷ rs))
            × (r.expression ≡ none)
            × (r.reply ≡ none)
            × (r.action ≡ plain Plain.continue)))

  module _ (stage : Stage) (known : stage ≢ unknown) where
    allowed_call : is_allowed acl_call stage ≡ true
    unfolding is_allowed is_any_or_init
    allowed_call = ground arith

    allowed_continue : is_allowed acl_continue stage ≡ true
    unfolding is_allowed is_any_or_init
    allowed_continue = ground arith

    -- A response that is no error and goes on to no other rule is that of the table.
    respond-continue :
        (rest : Acl a ActionType) (i : ℕ) (r : Rule Exp Other) (s : AclState a)
        → r.reply ≡ none
        → (respond a rest stage i r acl_continue s).0 ≡ ok acl_continue
    unfolding respond finish reply_to conclude record_match
    respond-continue rest i r s silent = rw silent refl

    ends-continue :
        (k : ℕ) (name : String) (r : Rule Exp Other) (rs : List (Rule Exp Other)) (s : AclState a)
        → acl_tables name ≡ some (r ∷ rs)
        → r.expression ≡ none
        → r.reply ≡ none
        → r.action ≡ plain Plain.continue
        → (acl_level a (suc k) stage name s).0 ≡ ok acl_continue
    unfolding acl_level exp_is_true apply_rule handle
    ends-continue k name r rs s table always silent end =
        rw (table, always)
          (rw (end, allowed_continue)
            (respond-continue (acl_rules a (acl_level a k stage) stage 2 rs) 1 r s silent))

    after_call :
        (k : ℕ) (name next : String) (r : Rule Exp Other) (rs : List (Rule Exp Other))
        (s : AclState a) (more : Bool)
        → acl_tables name ≡ some (r ∷ rs)
        → r.expression ≡ none
        → r.reply ≡ none
        → r.action ≡ call next
        → (acl_level a k stage next s).0 ≡ ok (if more then acl_continue else acl_error)
        → (acl_level a (suc k) stage name s).0 ≡ ok (if more then acl_continue else acl_error)
    unfolding acl_level exp_is_true apply_rule handle respond
    after_call k name next r rs s true table always silent jumped h =
        rw (table, always)
          (rw (jumped, allowed_call)
            (rw h (
              respond-continue (acl_rules a (acl_level a k stage) stage 2 rs) 1 r
                (acl_level a k stage next s).1 silent)))
    after_call k name next r rs s false table always silent jumped h =
        rw (table, always) (rw (jumped, allowed_call) (rw h refl))

    module _ (name : ℕ → String) (n : ℕ) (chain : IsChain name n) where
      level-chain :
          (left i k : ℕ) (s : AclState a)
          → i + left ≡ n
          → (acl_level a k stage (name i) s).0 ≡ ok (if ltb left k then acl_continue else acl_error)
      level-chain zero i zero s e = unfold acl_level in refl
      level-chain (suc left) i zero s e =
          let too_deep : ltb (suc left) 0 ≡ false = ground arith in
          rw too_deep (unfold acl_level in refl)
      level-chain zero i (suc k) s e =
          let (r, (rs, (table, always, silent, end))) = chain.ends in
          let last : n ≡ i = omega (arith, e) in
          let any_left : ltb 0 (suc k) ≡ true = ground arith in
          rw any_left (ends-continue k (name i) r rs s (rw last at table) always silent end)
      level-chain (suc left) i (suc k) s e =
          let (r, (rs, (table, always, silent, calling))) = chain.calls i (omega (arith, e)) in
          let one_less : ltb (suc left) (suc k) ≡ ltb left k = ground arith in
          rw one_less (
            after_call k (name i) (name (suc i)) r rs s (ltb left k) table always silent calling
              (level-chain left (suc i) k s (omega (arith, e))))

      -- In a stage other than MS_UNKNOWN, n tables of which each begins with an unconditional call of
      -- the next, and a last one that begins with an unconditional continue, none of these rules
      -- having a reply, answer ACL_CONTINUE if depth + n is less than 255, and ACL_ERROR if not.
      pub acl-chain :
          (depth : ℕ) (s : AclState a)
          → (acl a stage (name 0) depth s).0
            ≡ ok (if ltb (depth + n) 255 then acl_continue else acl_error)
      unfolding acl
      acl-chain depth s =
          let levels : ltb n (max_recursion - (depth + 1)) ≡ ltb (depth + n) 255 = ground arith in
          level-chain n 0 (max_recursion - (depth + 1)) s (omega arith) ∙ rw levels

  module _ (stage : Stage) (name : String) (r : Rule Exp Other) (rs : List (Rule Exp Other))
      (table : acl_tables name ≡ some (r ∷ rs)) (always : r.expression ≡ none)
      (again : (r.action ≡ call name) ⊎ (r.action ≡ jump name)) (known : stage ≢ unknown) where
    stage_allows : is_any_or_init stage ≡ true
    unfolding is_any_or_init
    stage_allows = ground arith

    allowed_again : is_allowed (aa_type r.action) stage ≡ true
    unfolding is_allowed
    allowed_again = elim again [ inl e ↦ rw (e) stage_allows | inr e ↦ rw (e) stage_allows ]

    handle-again :
        (self : String → Acl a ActionType) (s : AclState a)
        → self name s ≡ (ok acl_error, s)
        → handle a self stage r.action s ≡ (ok acl_error, s)
    unfolding handle
    handle-again self s h = elim again [ inl e ↦ rw (e, handle) h | inr e ↦ rw (e, handle) (rw h) ]

    level-again : (n : ℕ) (s : AclState a) → acl_level a n stage name s ≡ (ok acl_error, s)
    unfolding acl_level exp_is_true
    level-again zero s = refl
    level-again (suc n) s = rw table (
        rw (always, exp_is_true)
          (rw (allowed_again, apply_rule)
            (rw (handle-again (acl_level a n stage) s (level-again n s)) refl)))

    -- A table whose first rule has no condition and calls the table again, or jumps to it, ends in an
    -- error at every depth, and leaves everything as it was.
    pub acl-again : (depth : ℕ) (s : AclState a) → acl a stage name depth s ≡ (ok acl_error, s)
    unfolding acl
    acl-again depth s = level-again (max_recursion - (depth + 1)) s
