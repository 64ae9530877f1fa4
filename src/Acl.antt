-- ===== src/Acl.antt =====
-- The evaluation of the access list (src/acl.c): tables of rules, the actions that the core itself
-- handles, replies, and the record of the rule that matched. Handlers of other parts of the program,
-- the evaluator and the library's `smfi_setreply` are an `AclEnv`; `greylist` is the handler of
-- Greylist/Handler.antt. Log lines are not modelled.
mod Types
pub mod Rules
pub mod Depth
pub mod Match
pub mod Replies
pub mod Sample
mod Tests
use mopher.Prelude.{
  ℕ, zero, suc, ◌+◌, ◌-◌, String, Option, none, some, List, [], ◌∷◌, ◌==◌, if◌then◌else◌,
}
use mopher.Prelude.Int.{pos}
use mopher.Var.{Var, string, v_data, is_null, var_true}
use mopher.Vtable.{vtable_get}
use mopher.Exec.{Exec, Result, ok, fail, error, pure, raise, ◌>>=◌, ◌>>◌}
use mopher.Stage.{Stage}
use mopher.Action.{ActionType, acl_error, acl_none, acl_return, is_allowed}
use mopher.Greylist.{State}
use mopher.Greylist.Handler.{greylist}
unfoldable pub use mopher.Acl.Types.{set_match, acl_match}
pub use mopher.Acl.Types.{
  Plain, Action, Reply, Rule, AclEnv, plain_type, aa_type, stage_bit, Truth, first, Place,
  acl_status, keeps_match, truth_of, set_result, reply_digit, jump_result, max_recursion, plain,
  jump, call, set, log, greylisting, tarpit, modify, pipe, holds, fails, undecided,
}

module _ (a : AclEnv) where
  open a use {
    env, Other, cast_string, dump_fits, smfi_setreply, acl_tables, tarpit_action, msgmod,
    pipe_action,
  }
  open env use {Exp, exp_eval}

  -- The state of the greylist, and the reply that libmilter holds for the message.
  pub record AclState : Type 0 where
    pub inner : State env
    pub reply : Option (String × Option String × String)

  abbrev pub Acl : Type 0 → Type 0
  Acl A = Exec AclState A

  abbrev lift : {A : Type 0} → (State env → A × State env) → AclState → A × AclState
  lift f s = let (r, i) = f s.inner in (r, record s { inner = i })

  unfoldable pub eval : Exp → Acl (Option Var)
  eval e s =
      let (v, m) = exp_eval e s.inner.mailspec in
      (v, record s { inner = record (s.inner) { mailspec = m } })

  unfoldable pub exp_is_true : Option Exp → Acl Truth
  unfolding eval var_true
  exp_is_true none = pure holds
  exp_is_true (some e) = do v ← eval e; pure (truth_of v)

  unfoldable pub acl_set_action : Exp → Acl ActionType
  unfolding eval
  acl_set_action e = do v ← eval e; pure (set_result v)

  -- A message that is no string is dumped into a buffer.
  abbrev log_result : Option Var → ActionType
  log_result none = acl_error
  log_result (some v) = elim (v_data v) [
    | string s ↦ acl_none
    | _ ↦ if dump_fits v then acl_none else acl_error
  ]

  unfoldable pub acl_log_action : Exp → Option Exp → Acl ActionType
  unfolding eval
  acl_log_action message none = do v ← eval message; pure (log_result v)
  acl_log_action message (some level) = do
    l ← eval level
    elim l [ none ↦ pure acl_error | some x ↦ (do v ← eval message; pure (log_result v)) ]

  abbrev reply_text : Option Var → Option String
  reply_text none = none
  reply_text (some v) =
      if is_null (v_data v) then none else elim (v_data v) [ string s ↦ s | _ ↦ cast_string v ]

  unfoldable pub acl_eval_reply : Option Exp → Acl (Option String)
  unfolding eval
  acl_eval_reply none = pure none
  acl_eval_reply (some e) = do v ← eval e; pure (reply_text v)

  -- A required text: -1 without it
  unfoldable pub eval_text : Option Exp → Acl String
  unfolding acl_eval_reply
  eval_text e = do text ← acl_eval_reply e; elim text [ none ↦ raise error | some t ↦ pure t ]

  -- The enhanced code is optional.
  unfoldable pub eval_xcode : Option Exp → Acl (Option String)
  unfolding eval_text
  eval_xcode none = pure none
  eval_xcode (some e) = do x ← eval_text (some e); pure (some x)

  unfoldable pub milter_set_reply : String → Option String → String → Acl (Unit {0})
  milter_set_reply code xcode message s = elim (vtable_get s.inner.mailspec "milter_ctx") [
    | none ↦ (fail error, s)
    | some ctx ↦
        if smfi_setreply code xcode message
        then (ok tt, record s { reply = some (code, xcode, message) })
        else (fail error, s)
  ]

  unfoldable pub send_reply : Reply Exp → String → Acl (Unit {0})
  unfolding eval_text eval_xcode milter_set_reply
  send_reply ar code = do
    message ← eval_text ar.message
    xcode ← eval_xcode ar.xcode
    milter_set_reply code xcode message

  -- The test of the code against the type of the action
  unfoldable pub send_coded : Option ℕ → Reply Exp → String → Acl (Unit {0})
  unfolding send_reply
  send_coded none ar code = pure tt
  send_coded (some digit) ar code = if first code == digit then send_reply ar code else raise error

  unfoldable pub acl_set_reply : Reply Exp → ActionType → Acl (Unit {0})
  unfolding eval_text send_coded
  acl_set_reply ar type = do code ← eval_text ar.code; send_coded (reply_digit type) ar code

  -- The handler of the action, or its type where it has none. `self` evaluates a table one level
  -- deeper.
  unfoldable pub handle : (String → Acl ActionType) → Stage → Action Exp Other → Acl ActionType
  unfolding acl_set_action acl_log_action
  handle self stage (plain p) = pure (plain_type p)
  handle self stage (jump table) = do r ← self table; pure (jump_result r)
  handle self stage (call table) = self table
  handle self stage (set e) = acl_set_action e
  handle self stage (log message level) = acl_log_action message level
  handle self stage (greylisting gl) = lift (greylist env stage gl)
  handle self stage (tarpit e) = lift (λ i. let (r, i') = tarpit_action stage e i in (ok r, i'))
  handle self stage (modify x) = lift (λ i. let (r, i') = msgmod stage x i in (ok r, i'))
  handle self stage (pipe x) = lift (λ i. let (r, i') = pipe_action stage x i in (ok r, i'))

  -- `if (aa->aa_reply)`
  unfoldable pub reply_to : Option (Reply Exp) → ActionType → Acl (Unit {0})
  unfolding acl_set_reply
  reply_to none response = pure tt
  reply_to (some ar) response = acl_set_reply ar response

  unfoldable pub record_match : Stage → Place → Acl (Unit {0})
  unfolding acl_match
  record_match stage p s = (
    ok tt,
    record s {
      inner = record (s.inner) {
        mailspec = acl_match s.inner.mailspec (pos 1) (pos (stage_bit stage)) p;
      };
    },
  )

  -- A failed reply makes ACL_ERROR of the response.
  unfoldable pub conclude :
      Stage → ℕ → Rule Exp Other → ActionType → Result (Unit {0}) → Acl ActionType
  unfolding record_match
  conclude stage i r response (fail error) = pure acl_error
  conclude stage i r response (fail e) = raise e
  conclude stage i r response (ok _) = do
    record_match stage
        (record { rule = i; filename = r.filename; line = r.line; response = response })
    pure response

  unfoldable pub finish : Stage → ℕ → Rule Exp Other → ActionType → Acl ActionType
  unfolding reply_to conclude
  finish stage i r response s =
      let (sent, s') = reply_to r.reply response s in conclude stage i r response sent s'

  -- The second `switch`: what a response means for the rules after it.
  unfoldable pub respond : Acl ActionType → Stage → ℕ → Rule Exp Other → ActionType → Acl ActionType
  unfolding finish
  respond rest stage i r acl_none = rest
  respond rest stage i r acl_return = pure acl_none
  respond rest stage i r acl_error = pure acl_error
  respond rest stage i r response = finish stage i r response

  -- A rule whose expression holds
  unfoldable pub apply_rule :
      (String → Acl ActionType) → Acl ActionType → Stage → ℕ → Rule Exp Other → Acl ActionType
  unfolding is_allowed handle respond
  apply_rule self rest stage i r =
      if is_allowed (aa_type r.action) stage
      then (do response ← handle self stage r.action; respond rest stage i r response)
      else pure acl_error

  -- The first `switch`
  unfoldable pub choose :
      Truth
      → (String → Acl ActionType)
      → Acl ActionType
      → Stage
      → ℕ
      → Rule Exp Other
      → Acl ActionType
  unfolding apply_rule
  choose fails self rest stage i r = rest
  choose undecided self rest stage i r = pure acl_error
  choose holds self rest stage i r = apply_rule self rest stage i r

  -- The loop over the rules of a table; `i` is the number of the first.
  unfoldable pub acl_rules :
      (String → Acl ActionType) → Stage → ℕ → List (Rule Exp Other) → Acl ActionType
  unfolding exp_is_true choose
  acl_rules self stage i [] = pure acl_none
  acl_rules self stage i (r ∷ rs) = do
    t ← exp_is_true r.expression
    choose t self (acl_rules self stage (suc i) rs) stage i r

  unfoldable pub acl_table :
      (String → Acl ActionType) → Stage → Option (List (Rule Exp Other)) → Acl ActionType
  unfolding acl_rules
  acl_table self stage none = pure acl_none
  acl_table self stage (some rules) = acl_rules self stage 1 rules

  -- `acl` with the number of levels that the recursion limit leaves, this one included.
  unfoldable pub acl_level : ℕ → Stage → String → Acl ActionType
  unfolding acl_table
  acl_level zero stage name = pure acl_error
  acl_level (suc n) stage name = acl_table (acl_level n stage) stage (acl_tables name)

  -- `acl(stage, stagename, mailspec, depth)`: `++depth >= MAX_RECURSION` holds where no level is left.
  unfoldable pub acl : Stage → String → ℕ → Acl ActionType
  unfolding acl_level
  acl stage name depth = acl_level (max_recursion - (depth + 1)) stage name
