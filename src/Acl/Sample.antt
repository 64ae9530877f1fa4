-- ===== src/Acl/Sample.antt =====
-- An access list of four tables, with constants for expressions, as data for tests.
use mopher.Exec.{ok}
use mopher.Prelude.{
  ℕ, String, ◌≡◌, true, false, Option, none, some, List, [], ◌∷◌, if◌then◌else◌, str_eq,
}
use mopher.Prelude.Int.{pos}
use mopher.Var.{Var, var, nil, cons, int, string, pointer}
use mopher.Dbt.{Dbt}
use mopher.Action.{acl_none}
use mopher.Greylist.{Env, Tuple}
use mopher.Acl.{AclEnv, AclState, Action, Plain, Rule, Reply, plain, jump, call}

pub no_write : {A : Type 0} → false ≡ true → A
no_write e = cc

-- A database that refuses every write
abbrev pub refusing : Dbt Tuple
refusing = record {
  Db = Unit {0};
  get = λ db k. some none;
  set = λ db k t. (false, db);
  get-set = λ db k j t e. no_write e;
}

-- Constants are expressions.
abbrev pub env : Env
env = record {
  Exp = Var;
  exp_eval = λ e m. (ok (some e), m);
  cf_greylist_deadline = pos 86400;
  cf_greylist_visa = pos 604800;
  dbt = refusing;
}

abbrev pub text : String → Option Var
text t = some (var none (string (some t)))

abbrev pub number : ℕ → Option Var
number n = some (var none (int (some (pos n))))

abbrev pub entry : Option Var → Action Var (Unit {0}) → Option (Reply Var) → ℕ → Rule Var (Unit {0})
entry e x reply line = record {
  expression = e;
  action = x;
  reply = reply;
  filename = "mopherd.acl";
  line = pos line;
}

abbrev pub refuse : Option (Reply Var)
refuse = some (record { code = text "550"; xcode = text "5.7.1"; message = text "no" })

abbrev pub misfit : Option (Reply Var)
misfit = some (record { code = text "450"; xcode = none; message = text "no" })

-- `connect` refuses after a rule that does not hold; `envrcpt` jumps to `empty` before a rule that
-- would accept; `helo` has a reply whose code does not fit; `loop` calls itself.
unfoldable pub tables : String → Option (List (Rule Var (Unit {0})))
tables name =
    if str_eq name "loop"
    then some (entry none (call "loop") none 1 ∷ [])
    else if str_eq name "connect"
    then some (
        entry (number 0) (plain Plain.accept) none 2
        ∷ entry (number 1) (plain Plain.reject) refuse 3
        ∷ [])
    else if str_eq name "envrcpt"
    then some (entry none (jump "empty") none 4 ∷ entry none (plain Plain.accept) none 5 ∷ [])
    else if str_eq name "helo"
    then some (entry none (plain Plain.reject) misfit 6 ∷ [])
    else none

abbrev pub config : AclEnv
config = record {
  env = env;
  Other = Unit {0};
  cast_string = λ v. none;
  dump_fits = λ v. true;
  smfi_setreply = λ c x m. true;
  tarpit_action = λ stage e s. (acl_none, s);
  msgmod = λ stage x s. (acl_none, s);
  pipe_action = λ stage x s. (acl_none, s);
  acl_tables = tables;
}

abbrev pub start : AclState config
start = record {
  inner = record { mailspec = cons (var (some "milter_ctx") (pointer (some 1))) nil; db = tt };
  reply = none;
}
