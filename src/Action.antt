-- ===== src/Action.antt =====
-- What a rule of the access list does (`acl_action_type`, src/include/acl.h), and the stages at which
-- it may (the column `ah_stages` of `acl_action_handlers`, src/acl.c).
use mopher.Prelude.{Bool, false}
use mopher.Stage.{Stage, is_any, is_any_or_init, is_off_envrcpt, is_eom}

-- `acl_error`, `acl_none` and the others are ACL_ERROR, ACL_NONE and so on.
pub data ActionType : Type 0 where
  acl_error acl_null acl_none acl_return acl_continue acl_reject acl_discard : ActionType
  acl_accept acl_tempfail acl_jump acl_call acl_set acl_log acl_greylist : ActionType
  acl_tarpit acl_mod acl_pipe : ActionType

-- `acl_action_handlers[type].ah_stages & stage`; ACL_ERROR is no index of the table.
unfoldable pub is_allowed : ActionType → Stage → Bool
unfolding is_any is_any_or_init is_off_envrcpt is_eom
is_allowed acl_error stage = false
is_allowed acl_null stage = is_any_or_init stage
is_allowed acl_none stage = is_any_or_init stage
is_allowed acl_return stage = is_any_or_init stage
is_allowed acl_continue stage = is_any_or_init stage
is_allowed acl_reject stage = is_any stage
is_allowed acl_discard stage = is_any stage
is_allowed acl_accept stage = is_any stage
is_allowed acl_tempfail stage = is_any stage
is_allowed acl_jump stage = is_any_or_init stage
is_allowed acl_call stage = is_any_or_init stage
is_allowed acl_set stage = is_any_or_init stage
is_allowed acl_log stage = is_any_or_init stage
is_allowed acl_greylist stage = is_off_envrcpt stage
is_allowed acl_tarpit stage = is_any stage
is_allowed acl_mod stage = is_eom stage
is_allowed acl_pipe stage = is_eom stage
