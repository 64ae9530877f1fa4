-- ===== src/Exp/Rules.antt =====
-- The access list (src/acl.c) with the expressions of src/exp.c: the interface that Acl and Greylist take, filled
-- by Exp.
use mopher.Prelude.{String, Bool, Option, List}
use mopher.Prelude.Int.{ℤ}
use mopher.Var.{Var}
use mopher.Stage.{Stage}
use mopher.Dbt.{Dbt}
use mopher.Action.{ActionType}
use mopher.Greylist.{Env, State, Tuple}
use mopher.Acl.{AclEnv, AclState, Rule}
use mopher.Exp.{Exp}
use mopher.Exp.Symbols.{Registry}
use mopher.Exp.Eval.{exp_eval}

-- The greylist's settings and its table
pub record Settings : Type 1 where
  pub cf_greylist_deadline : ℤ
  pub cf_greylist_visa : ℤ
  pub dbt : Dbt Tuple

abbrev pub with_exp : Registry → Settings → Env
with_exp r x = record {
  Exp = Exp;
  exp_eval = exp_eval r;
  cf_greylist_deadline = x.cf_greylist_deadline;
  cf_greylist_visa = x.cf_greylist_visa;
  dbt = x.dbt;
}

-- The handlers that the evaluation of the rules calls, and the rules
pub record Handlers (e : Env) : Type 1 where
  pub Other : Type 0
  pub cast_string : Var → Option String
  pub dump_fits : Var → Bool
  pub smfi_setreply : String → Option String → String → Bool
  pub tarpit_action : Stage → e.Exp → State e → ActionType × State e
  pub msgmod : Stage → Other → State e → ActionType × State e
  pub pipe_action : Stage → Other → State e → ActionType × State e
  pub acl_tables : String → Option (List (Rule e.Exp Other))

abbrev pub acl_env : (r : Registry) (x : Settings) → Handlers (with_exp r x) → AclEnv
acl_env r x h = record {
  env = with_exp r x;
  Other = h.Other;
  cast_string = h.cast_string;
  dump_fits = h.dump_fits;
  smfi_setreply = h.smfi_setreply;
  tarpit_action = h.tarpit_action;
  msgmod = h.msgmod;
  pipe_action = h.pipe_action;
  acl_tables = h.acl_tables;
}

module _ (r : Registry) (x : Settings) (h : Handlers (with_exp r x)) where
  abbrev pub Rules : Type 0
  Rules = AclState (acl_env r x h)
