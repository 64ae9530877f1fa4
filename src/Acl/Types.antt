-- ===== src/Acl/Types.antt =====
-- Rules, actions and replies (src/include/acl.h), and the small functions of src/acl.c that need no state:
-- names and numbers of actions, and the record of the rule that matched.
use Prim.Native.Char.{code}
use mopher.Prelude.{ℕ, ◌^◌, String, Bool, false, not, ◌&&◌, Option, none, some, List, if◌then◌else◌}
use mopher.Prelude.Int.{ℤ, pos, ltb_ℤ, eqb_ℤ}
use mopher.Var.{Var, Vars, int, string, var_true}
use mopher.Vtable.{vtable_set_new}
use mopher.Stage.{Stage}
use mopher.Stage.{
  init, connect, unknown, helo, envfrom, envrcpt, data_stage, header, eoh, body, eom, abort, close,
}
use mopher.Action.{
  ActionType, acl_error, acl_null, acl_none, acl_return, acl_continue, acl_reject, acl_discard,
  acl_accept, acl_tempfail, acl_jump, acl_call, acl_set, acl_log, acl_greylist, acl_tarpit, acl_mod,
  acl_pipe,
}
use mopher.Greylist.{Env, Greylist, State}
use mopher.Greylist.Handler.{get_int}

-- The types of action without a handler; `pass_on` is ACL_NONE
pub data Plain : Type 0 where
  null pass_on return continue reject discard accept tempfail : Plain

-- `aa_type` and `aa_data`
pub data Action (Exp Other : Type 0) : Type 0 where
  plain : Plain → Action Exp Other
  jump call : String → Action Exp Other
  set : Exp → Action Exp Other
  log : Exp → Option Exp → Action Exp Other
  greylisting : Greylist Exp → Action Exp Other
  tarpit : Exp → Action Exp Other
  modify pipe : Other → Action Exp Other

-- An absent expression is a NULL pointer.
pub record Reply (Exp : Type 0) : Type 0 where
  pub code : Option Exp
  pub xcode : Option Exp
  pub message : Option Exp

-- `filename` and `line` are those of the rule's action.
pub record Rule (Exp Other : Type 0) : Type 0 where
  pub expression : Option Exp
  pub action : Action Exp Other
  pub reply : Option (Reply Exp)
  pub filename : String
  pub line : ℤ

-- `cast_string` is `var_cast_copy` to a string, `dump_fits` whether `var_dump_data` succeeds in the
-- buffer of a log line; `other_tarpit`, `msgmod` and `pipe_action` are the handlers of tarpit.c,
-- msgmod.c and pipe.c, which send no reply. `acl_tables` is what `acl_append` built.
pub record AclEnv : Type 1 where
  pub env : Env
  pub Other : Type 0
  pub cast_string : Var → Option String
  pub dump_fits : Var → Bool
  pub smfi_setreply : String → Option String → String → Bool
  pub tarpit_action : Stage → env.Exp → State env → ActionType × State env
  pub msgmod : Stage → Other → State env → ActionType × State env
  pub pipe_action : Stage → Other → State env → ActionType × State env
  pub acl_tables : String → Option (List (Rule env.Exp Other))

abbrev pub plain_type : Plain → ActionType
plain_type Plain.null = acl_null
plain_type Plain.pass_on = acl_none
plain_type Plain.return = acl_return
plain_type Plain.continue = acl_continue
plain_type Plain.reject = acl_reject
plain_type Plain.discard = acl_discard
plain_type Plain.accept = acl_accept
plain_type Plain.tempfail = acl_tempfail

abbrev pub aa_type : {Exp Other : Type 0} → Action Exp Other → ActionType
aa_type (plain p) = plain_type p
aa_type (jump t) = acl_jump
aa_type (call t) = acl_call
aa_type (set e) = acl_set
aa_type (log m l) = acl_log
aa_type (greylisting gl) = acl_greylist
aa_type (tarpit e) = acl_tarpit
aa_type (modify x) = acl_mod
aa_type (pipe x) = acl_pipe

-- The bit of a stage
abbrev pub stage_bit : Stage → ℕ
stage_bit init = 2 ^ 0
stage_bit connect = 2 ^ 1
stage_bit unknown = 2 ^ 2
stage_bit helo = 2 ^ 3
stage_bit envfrom = 2 ^ 4
stage_bit envrcpt = 2 ^ 5
stage_bit data_stage = 2 ^ 6
stage_bit header = 2 ^ 7
stage_bit eoh = 2 ^ 8
stage_bit body = 2 ^ 9
stage_bit eom = 2 ^ 10
stage_bit abort = 2 ^ 11
stage_bit close = 2 ^ 12

-- The results of `exp_is_true`: 1, 0 and -1
pub data Truth : Type 0 where
  holds fails undecided : Truth

-- `code[0]`, 0 for the empty string
abbrev pub first : String → ℕ
first String.[] = 0
first (String.◌∷◌ c s) = code c

-- The symbols that say which rule matched
pub record Place : Type 0 where
  pub rule : ℕ
  pub filename : String
  pub line : ℤ
  pub response : ActionType

-- The names of `acl_stati`
abbrev pub acl_status : ActionType → String
acl_status acl_error = ""
acl_status acl_null = "NULL"
acl_status acl_none = "NONE"
acl_status acl_return = "RETURN"
acl_status acl_continue = "CONTINUE"
acl_status acl_reject = "REJECT"
acl_status acl_discard = "DISCARD"
acl_status acl_accept = "ACCEPT"
acl_status acl_tempfail = "TEMPFAIL"
acl_status acl_jump = "JUMP"
acl_status acl_call = "CALL"
acl_status acl_set = "SET"
acl_status acl_log = "LOG"
acl_status acl_greylist = "GREYLIST"
acl_status acl_tarpit = "TARPIT"
acl_status acl_mod = "MOD"
acl_status acl_pipe = "PIPE"

-- The `vtable_setv` of `acl_match`
unfoldable pub set_match : Vars → ℤ → ℤ → Place → Vars
set_match m matched stage p =
    let m₁ = vtable_set_new m "acl_matched" (int (some matched)) in
    let m₂ = vtable_set_new m₁ "acl_stage_matched" (int (some stage)) in
    let m₃ = vtable_set_new m₂ "acl_rule" (int (some (pos p.rule))) in
    let m₄ = vtable_set_new m₃ "acl_filename" (string (some p.filename)) in
    let m₅ = vtable_set_new m₄ "acl_line" (int (some p.line)) in
    vtable_set_new m₅ "acl_response" (string (some (acl_status p.response)))

-- A match is kept if it was recorded in this stage, or in one with a greater bit.
abbrev pub keeps_match : Option ℤ → Option ℤ → ℤ → Bool
keeps_match none stage_matched stage = false
keeps_match (some matched) none stage = false
keeps_match (some matched) (some stage_matched) stage =
    not (ltb_ℤ stage_matched stage) && not (eqb_ℤ matched (pos 0))

unfoldable pub acl_match : Vars → ℤ → ℤ → Place → Vars
acl_match m matched stage p =
    if keeps_match (get_int m "acl_matched") (get_int m "acl_stage_matched") stage
    then m
    else set_match m matched stage p

abbrev pub truth_of : Option Var → Truth
truth_of none = undecided
truth_of (some v) = if var_true v then holds else fails

abbrev pub set_result : Option Var → ActionType
set_result none = acl_error
set_result (some v) = acl_none

-- The digit that a reply code must begin with; other actions take no reply.
abbrev pub reply_digit : ActionType → Option ℕ
reply_digit acl_reject = some b'5'
reply_digit acl_tempfail = some b'4'
reply_digit acl_greylist = some b'4'
reply_digit _ = none

-- `acl_jump` does not come back to the rules after it.
abbrev pub jump_result : ActionType → ActionType
jump_result acl_none = acl_continue
jump_result r = r

abbrev pub max_recursion : ℕ
max_recursion = 256
