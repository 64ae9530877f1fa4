-- ===== src/Acl/Replies.antt =====
-- The SMTP reply that an evaluation of the access list (src/acl.c) leaves for the message.
pub mod Send
use mopher.Prelude.{
  ℕ, zero, suc, String, ◌≡◌, refl, true, false, Option, none, some, List, [], ◌∷◌, arith,
  Bool-cases, inl, inr, ◌⊎◌, ◌∙◌, Option-cases, ◌==◌, ==_iff, if◌then◌else◌,
}
use mopher.Var.{Var}
use mopher.Vtable.{vtable_get}
use mopher.Exec.{
  Result, ok, fail, error, null_pointer, uninitialized, undefined, exit, pure, raise, continue,
  ◌>>=◌,
}
use mopher.Exec.Post.{Post, After, Post-bind, Post-weaken}
use mopher.Stage.{Stage}
use mopher.Action.{
  ActionType, acl_error, acl_none, acl_return, acl_continue, acl_reject, acl_tempfail, acl_greylist,
  is_allowed,
}
use mopher.Acl.{
  AclEnv, AclState, Acl, Reply, Rule, Action, Place, Truth, holds, fails, undecided, plain, jump,
  call, set, log, greylisting, tarpit, modify, pipe, first, reply_digit, eval, exp_is_true,
  acl_set_action, acl_log_action, acl_eval_reply, eval_text, eval_xcode, milter_set_reply,
  send_reply, acl_set_reply, handle, send_coded, reply_to, record_match, conclude, finish, respond,
  apply_rule, choose, acl_rules, acl_table, acl_level, acl, jump_result, aa_type,
}
use mopher.Acl.Replies.Send.{HasDigit, Fits, Sent, SentFor, acl_set_reply-SentFor}

module _ (a : AclEnv) where
  open a use {env, Other, acl_tables}
  open env use {Exp}

  -- The reply is as it was before, or fits the answer.
  abbrev Outcome : AclState a → ActionType → AclState a → Type 0
  Outcome s x s' = (s'.reply ≡ s.reply) ⊎ Fits x s'.reply

  Outcome-none : (s s₁ : AclState a) → Outcome s acl_none s₁ → s₁.reply ≡ s.reply
  Outcome-none s s₁ (inl e) = e
  Outcome-none s s₁ (inr h) = absurd h

  Fits-error :
      (x : ActionType) (r : Option (String × Option String × String)) → Fits x r → Fits acl_error r
  Fits-error acl_reject r h = inr h
  Fits-error acl_tempfail r h = inl h
  Fits-error acl_greylist r h = inl h
  Fits-error acl_error r h = h
  Fits-error _ r h = absurd h

  Outcome-sent :
      (x : ActionType) (s s₁ s₂ : AclState a)
      → Outcome s x s₁
      → SentFor a (reply_digit x) s₁ s₂
      → Outcome s x s₂
  Outcome-sent acl_reject s s₁ s₂ h (inl e) = rw e h
  Outcome-sent acl_reject s s₁ s₂ h (inr g) = inr g
  Outcome-sent acl_tempfail s s₁ s₂ h (inl e) = rw e h
  Outcome-sent acl_tempfail s s₁ s₂ h (inr g) = inr g
  Outcome-sent acl_greylist s s₁ s₂ h (inl e) = rw e h
  Outcome-sent acl_greylist s s₁ s₂ h (inr g) = inr g
  Outcome-sent _ s s₁ s₂ h e = rw e h

  Outcome-error : (x : ActionType) (s s₁ : AclState a) → Outcome s x s₁ → Outcome s acl_error s₁
  Outcome-error x s s₁ (inl e) = inl e
  Outcome-error x s s₁ (inr h) = inr (Fits-error x s₁.reply h)

  Outcome-jump :
      (x : ActionType) (s s₁ : AclState a) → Outcome s x s₁ → Outcome s (jump_result x) s₁
  Outcome-jump acl_none s s₁ h = inl (Outcome-none s s₁ h)
  Outcome-jump _ s s₁ h = h

  -- Steps that send nothing
  After-quiet :
      (r : Result ActionType) (s s₁ : AclState a) → s₁.reply ≡ s.reply → After r s₁ (Outcome s)
  After-quiet (ok x) s s₁ e = inl e
  After-quiet (fail x) s s₁ e = tt

  set-quiet : (e : Exp) (s : AclState a) → (acl_set_action a e s).1.reply ≡ s.reply
  unfolding acl_set_action
  set-quiet e s = ground arith

  log-quiet :
      (m : Exp) (l : Option Exp) (s : AclState a) → (acl_log_action a m l s).1.reply ≡ s.reply
  unfolding acl_log_action
  log-quiet m none s = ground arith
  log-quiet m (some l) s = ground arith

  module _ (self : String → Acl a ActionType) (stage : Stage)
      (deeper : (table : String) (s : AclState a) → Post (self table) s (Outcome s)) where
    handle-Outcome :
        (x : Action Exp Other) (s : AclState a) → Post (handle a self stage x) s (Outcome s)
    unfolding handle
    handle-Outcome (plain p) s = inl refl
    handle-Outcome (jump t) s =
        Post-bind (self t) (λ r. pure (jump_result r)) s (Outcome s) (Outcome s) (deeper t s)
          λ r s₁ h. Outcome-jump r s s₁ h
    handle-Outcome (call t) s = deeper t s
    handle-Outcome (set e) s =
        After-quiet (acl_set_action a e s).0 s (acl_set_action a e s).1 (set-quiet e s)
    handle-Outcome (log m l) s =
        After-quiet (acl_log_action a m l s).0 s (acl_log_action a m l s).1 (log-quiet m l s)
    handle-Outcome (greylisting gl) s = After-quiet _ s _ refl
    handle-Outcome (tarpit e) s = inl refl
    handle-Outcome (modify x) s = inl refl
    handle-Outcome (pipe x) s = inl refl

    reply_to-SentFor :
        (r : Option (Reply Exp)) (x : ActionType) (s : AclState a)
        → SentFor a (reply_digit x) s (reply_to a r x s).1
    unfolding reply_to
    reply_to-SentFor none acl_reject s = inl refl
    reply_to-SentFor none acl_tempfail s = inl refl
    reply_to-SentFor none acl_greylist s = inl refl
    reply_to-SentFor none _ s = refl
    reply_to-SentFor (some ar) x s = acl_set_reply-SentFor a ar x s

    finished :
        (sent : Result (Unit {0})) (i : ℕ) (r : Rule Exp Other) (x : ActionType) (s s₁ : AclState a)
        → Outcome s x s₁
        → Post (conclude a stage i r x sent) s₁ (Outcome s)
    unfolding conclude
    finished (ok u) i r x s s₁ h = h
    finished (fail error) i r x s s₁ h = Outcome-error x s s₁ h
    finished (fail null_pointer) i r x s s₁ h = tt
    finished (fail uninitialized) i r x s s₁ h = tt
    finished (fail undefined) i r x s s₁ h = tt
    finished (fail exit) i r x s s₁ h = tt

    finish-Outcome :
        (i : ℕ) (r : Rule Exp Other) (x : ActionType) (s s₁ : AclState a)
        → Outcome s x s₁
        → Post (finish a stage i r x) s₁ (Outcome s)
    unfolding finish
    finish-Outcome i r x s s₁ h =
        finished (reply_to a r.reply x s₁).0 i r x s (reply_to a r.reply x s₁).1
          (Outcome-sent x s s₁ (reply_to a r.reply x s₁).1 h (reply_to-SentFor r.reply x s₁))

    -- A step that leaves the reply alone, before a run with an outcome
    Outcome-after :
        (m : Acl a ActionType) (s s₁ : AclState a)
        → s₁.reply ≡ s.reply
        → Post m s₁ (Outcome s₁)
        → Post m s₁ (Outcome s)
    Outcome-after m s s₁ e h = Post-weaken m s₁ (Outcome s₁) (Outcome s) h λ x s₂ o. joined x s₂ o
      where
        joined : (x : ActionType) (s₂ : AclState a) → Outcome s₁ x s₂ → Outcome s x s₂
        joined x s₂ (inl e') = inl (e' ∙ e)
        joined x s₂ (inr f) = inr f

    module _ (rest : Acl a ActionType) (after : (s : AclState a) → Post rest s (Outcome s)) (i : ℕ)
        (r : Rule Exp Other) where
      respond-Outcome :
          (x : ActionType) (s s₁ : AclState a)
          → Outcome s x s₁
          → Post (respond a rest stage i r x) s₁ (Outcome s)
      unfolding respond
      respond-Outcome acl_none s s₁ h = Outcome-after rest s s₁ (Outcome-none s s₁ h) (after s₁)
      respond-Outcome acl_return s s₁ h = h
      respond-Outcome acl_error s s₁ h = h
      respond-Outcome x s s₁ h = finish-Outcome i r x s s₁ h

      apply_rule-Outcome : (s : AclState a) → Post (apply_rule a self rest stage i r) s (Outcome s)
      unfolding apply_rule
      apply_rule-Outcome s = elim (Bool-cases (is_allowed (aa_type r.action) stage)) [
        | inl y ↦ rw y (
            Post-bind (handle a self stage r.action) (respond a rest stage i r) s (Outcome s)
              (Outcome s) (handle-Outcome r.action s) (λ x s₁ h. respond-Outcome x s s₁ h))
        | inr n ↦ rw n (inl refl)
      ]

      choose-Outcome :
          (t : Truth) (s : AclState a) → Post (choose a t self rest stage i r) s (Outcome s)
      unfolding choose
      choose-Outcome fails s = after s
      choose-Outcome undecided s = inl refl
      choose-Outcome holds s = apply_rule-Outcome s

    exp_is_true-quiet :
        (e : Option Exp) (s : AclState a) → Post (exp_is_true a e) s (λ t s₁. s₁.reply ≡ s.reply)
    unfolding exp_is_true
    exp_is_true-quiet none s = refl
    exp_is_true-quiet (some e) s = ground arith

    rules-Outcome :
        (rs : List (Rule Exp Other)) (i : ℕ) (s : AclState a)
        → Post (acl_rules a self stage i rs) s (Outcome s)
    unfolding acl_rules
    rules-Outcome [] i s = inl refl
    rules-Outcome (r ∷ rs) i s =
        Post-bind (exp_is_true a r.expression)
          (λ t. choose a t self (acl_rules a self stage (suc i) rs) stage i r) s
          (λ t s₁. s₁.reply ≡ s.reply) (Outcome s) (exp_is_true-quiet r.expression s)
          λ t s₁ e.
            Outcome-after (choose a t self (acl_rules a self stage (suc i) rs) stage i r) s s₁ e (
              choose-Outcome (acl_rules a self stage (suc i) rs) (rules-Outcome rs (suc i)) i r t
                s₁)

    table-Outcome :
        (t : Option (List (Rule Exp Other))) (s : AclState a)
        → Post (acl_table a self stage t) s (Outcome s)
    unfolding acl_table
    table-Outcome none s = inl refl
    table-Outcome (some rules) s = rules-Outcome rules 1 s

  level-Outcome :
      (n : ℕ) (stage : Stage) (name : String) (s : AclState a)
      → Post (acl_level a n stage name) s (Outcome s)
  unfolding acl_level
  level-Outcome zero stage name s = inl refl
  level-Outcome (suc n) stage name s =
      table-Outcome (acl_level a n stage) stage (level-Outcome n stage) (acl_tables name) s

  -- After an evaluation that returns, the reply is the one that was there before, or it fits the answer:
  -- a code 5xx for ACL_REJECT, 4xx for ACL_TEMPFAIL and ACL_GREYLIST, one of the two for ACL_ERROR, and
  -- none for any other answer.
  pub acl-Fits :
      (stage : Stage) (name : String) (depth : ℕ) (s : AclState a)
      → Post (acl a stage name depth) s (λ x s'. (s'.reply ≡ s.reply) ⊎ Fits x s'.reply)
  unfolding acl
  acl-Fits stage name depth s = level-Outcome _ stage name s
