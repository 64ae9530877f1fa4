-- ===== src/Milter.antt =====
-- The milter (src/milter.c): the answer to the mail server for what the access list says, and what is
-- left of a message when it ends. The callbacks are Milter/Callbacks and Milter/Session. The functions
-- that `acl_update` calls are a parameter.
pub mod Answer
pub mod Clear
pub mod Callbacks
pub mod Session
pub mod Lengths
pub mod Measured
pub mod Stages
mod Tests
use mopher.Prelude.{
  ℕ, String, Bool, true, false, Option, none, some, List, [], ◌∷◌, ◌++◌, if◌then◌else◌,
}
use mopher.Prelude.Int.{ℤ, pos, negsuc}
use mopher.Var.{Data, Vars, int}
use mopher.Vtable.{vtable_remove, vtable_set_new}
use mopher.Exec.{Result, ok, pure, ◌>>=◌}
use mopher.Stage.{Stage}
use mopher.Stage.{
  init, connect, unknown, helo, envfrom, envrcpt, data_stage, header, eoh, body, eom, abort, close,
}
use mopher.Action.{
  ActionType, acl_error, acl_null, acl_none, acl_return, acl_continue, acl_reject, acl_discard,
  acl_accept, acl_tempfail, acl_jump, acl_call, acl_set, acl_log, acl_greylist, acl_tarpit, acl_mod,
  acl_pipe,
}
use mopher.Greylist.{State}
use mopher.Acl.{AclEnv, AclState, Acl, acl}

pub data Sfsistat : Type 0 where
  smfis_continue smfis_reject smfis_discard smfis_accept smfis_tempfail : Sfsistat

-- The numbers of the actions
abbrev pub action_int : ActionType → ℤ
action_int acl_error = negsuc 0
action_int acl_null = pos 0
action_int acl_none = pos 1
action_int acl_return = pos 2
action_int acl_continue = pos 3
action_int acl_reject = pos 4
action_int acl_discard = pos 5
action_int acl_accept = pos 6
action_int acl_tempfail = pos 7
action_int acl_jump = pos 8
action_int acl_call = pos 9
action_int acl_set = pos 10
action_int acl_log = pos 11
action_int acl_greylist = pos 12
action_int acl_tarpit = pos 13
action_int acl_mod = pos 14
action_int acl_pipe = pos 15

-- The `switch` of `milter_acl`: the default is an error.
abbrev pub sfsistat : ActionType → Sfsistat
sfsistat acl_none = smfis_continue
sfsistat acl_continue = smfis_continue
sfsistat acl_reject = smfis_reject
sfsistat acl_discard = smfis_discard
sfsistat acl_accept = smfis_accept
sfsistat _ = smfis_tempfail

module _ (a : AclEnv) (callbacks : Stage → ActionType → State a.env → State a.env) where
  -- The symbol "action" and `acl_update`
  unfoldable pub after_acl : Stage → ActionType → Acl a Sfsistat
  unfolding vtable_set_new
  after_acl stage action s =
      let mailspec = vtable_set_new s.inner.mailspec "action" (int (some (action_int action))) in
      (
        ok (sfsistat action),
        record s { inner = callbacks stage action (record (s.inner) { mailspec = mailspec }) },
      )

  unfoldable pub milter_acl : Stage → String → Acl a Sfsistat
  unfolding acl after_acl
  milter_acl stage stagename = do action ← acl a stage stagename 0; after_acl stage action

-- A set of stages; `|` joins two, and a set is true in C if it is not empty.
abbrev pub Stages : Type 0
Stages = List Stage

abbrev pub is_set : Stages → Bool
is_set [] = false
is_set (s ∷ ss) = true

abbrev off_eom : Stages
off_eom = eom ∷ abort ∷ close ∷ []

abbrev off_eoh : Stages
off_eoh = eoh ∷ body ∷ off_eom

abbrev off_data : Stages
off_data = data_stage ∷ header ∷ off_eoh

abbrev off_envrcpt : Stages
off_envrcpt = envrcpt ∷ off_data

abbrev off_envfrom : Stages
off_envfrom = envfrom ∷ off_envrcpt

abbrev off_helo : Stages
off_helo = helo ∷ off_envfrom

-- `MS_ANY`, which is `MS_OFF_CONNECT`
abbrev any : Stages
any = connect ∷ off_helo

-- `milter_symbols`
abbrev pub milter_symbols : List (String × Stages)
milter_symbols =
    ("milter_ctx", any)
    ∷ ("action", any)
    ∷ ("id", any ++ init ∷ [])
    ∷ ("stage", any)
    ∷ ("stagename", any)
    ∷ ("unknown_command", unknown ∷ [])
    ∷ ("received", any ++ init ∷ [])
    ∷ ("hostaddr", any)
    ∷ ("hostaddr_str", any)
    ∷ ("ipv6", any)
    ∷ ("hostname", any)
    ∷ ("origin", any)
    ∷ ("helo", off_helo)
    ∷ ("envfrom", off_envfrom)
    ∷ ("envfrom_addr", off_envfrom)
    ∷ ("envfrom_domain", off_envfrom)
    ∷ ("envrcpt", off_envrcpt)
    ∷ ("envrcpt_addr", off_envrcpt)
    ∷ ("envrcpt_domain", off_envrcpt)
    ∷ ("recipients", off_envrcpt)
    ∷ ("recipient_list", off_data)
    ∷ ("header_name", header ∷ [])
    ∷ ("header_value", header ∷ [])
    ∷ ("headers", off_eoh)
    ∷ ("headers_size", off_eoh)
    ∷ ("message_id", off_eoh)
    ∷ ("queue_id", off_data)
    ∷ ("subject", off_eoh)
    ∷ ("body", off_eom)
    ∷ ("body_size", off_eom)
    ∷ ("message_size", off_eom)
    ∷ ("eom_complete", any)
    ∷ []

-- `none` is a NULL pointer.
pub record MilterPriv : Type 0 where
  pub mp_table : Vars
  pub mp_recipients : ℤ
  pub mp_header : Option String
  pub mp_headerlen : ℤ
  pub mp_body : Option String
  pub mp_bodylen : ℤ
  pub mp_eom_complete : ℤ

-- The loop of `milter_priv_clear_msg`
unfoldable pub clear_symbols : Stages → List (String × Stages) → Vars → Vars
unfolding vtable_remove
clear_symbols stages [] m = m
clear_symbols stages ((name, ms_stage) ∷ rest) m =
    clear_symbols stages rest (if is_set (ms_stage ++ stages) then m else vtable_remove m name)

unfoldable pub milter_priv_clear_msg : MilterPriv → MilterPriv
unfolding clear_symbols
milter_priv_clear_msg mp = record mp {
  mp_table = clear_symbols (connect ∷ unknown ∷ helo ∷ []) milter_symbols mp.mp_table;
  mp_header = none;
  mp_body = none;
  mp_recipients = pos 0;
  mp_headerlen = pos 0;
  mp_bodylen = pos 0;
}
