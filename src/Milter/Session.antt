-- ===== src/Milter/Session.antt =====
-- A session with the mail server: the private data that libmilter keeps for it, and the callbacks of
-- src/milter.c around the access list.
use mopher.Prelude.{ℕ, ◌≡◌, String, Bool, true, false, Option, none, some, [], ◌∷◌}
use mopher.Prelude.Int.{pos}
use mopher.Var.{Vars, int, pointer, string}
use mopher.Vtable.{
  vtable_lookup, vtable_set_new, vtable_setv, vtable_rename, vtable_list_append_new,
}
use mopher.Exec.{Result, ok, fail, null_pointer, undefined}
use mopher.Stage.{Stage}
use mopher.Stage.{
  init, connect, unknown, helo, envfrom, envrcpt, data_stage, header, eoh, body, eom, abort, close,
}
use mopher.Action.{ActionType}
use mopher.Greylist.{State}
use mopher.Acl.{AclEnv, AclState, stage_bit}
use mopher.Milter.{
  Sfsistat, smfis_continue, smfis_accept, smfis_tempfail, MilterPriv, milter_acl,
  milter_priv_clear_msg,
}
use mopher.Milter.Callbacks.{
  Server, Preparation, new_priv, unknown_command, helo_name, connection, mailbox, sender, recipient,
  recipient_count, message_header, headers, body_part, message, init_stage,
}

-- The variables that `milter_common_init` sets
abbrev pub stage_variables : Server → Stage → String → Vars → Vars
stage_variables l stage stagename m = vtable_setv m (
    ("milter_ctx", pointer (some l.ctx))
    ∷ ("stage", int (some (pos (stage_bit stage))))
    ∷ ("stagename", string (some stagename))
    ∷ [])

-- The queue id is looked up once.
abbrev pub queue_id : Server → Stage → Vars → Vars
queue_id l stage m = elim (vtable_lookup m "queue_id") [
  | some v ↦ m
  | none ↦ elim (l.smfi_getsymval stage "i") [
    | none ↦ m
    | some id ↦ vtable_set_new m "queue_id" (string (some id))
  ]
]

abbrev pub entered : Server → Stage → String → Vars → Vars
entered l stage stagename m = queue_id l stage (stage_variables l stage stagename m)

-- `milter_common_init` where the private data exist: `none` is the exit that deletes them.
unfoldable pub enter : Server → Stage → String → MilterPriv → Option MilterPriv
unfolding vtable_rename vtable_lookup vtable_setv vtable_set_new
enter l stage stagename mp = elim (vtable_rename mp.mp_table "stage" "laststage") [
  | none ↦ none
  | some m ↦ some (record mp { mp_table = entered l stage stagename m })
]

unfoldable pub enter_init : Server → MilterPriv
unfolding vtable_lookup vtable_setv vtable_set_new
enter_init l = record new_priv { mp_table = entered l init "init" new_priv.mp_table }

module _ (a : AclEnv) (updates : Stage → ActionType → State a.env → State a.env) (l : Server) where
  -- `priv` is what `smfi_getpriv` returns, and the state of the program that outlives a message stands
  -- beside it.
  pub record Session : Type 0 where
    pub priv : Option MilterPriv
    pub db : a.env.dbt.Db
    pub reply : Option (String × Option String × String)

  abbrev pub Callback : Type 0
  Callback = Session → Result Sfsistat × Session

  abbrev pub with_priv : Session → Option MilterPriv → Session
  with_priv s p = record s { priv = p }

  abbrev pub acl_state : Session → MilterPriv → AclState a
  acl_state s mp = record { inner = record { mailspec = mp.mp_table; db = s.db }; reply = s.reply }

  abbrev pub after_stage : MilterPriv → AclState a → Session
  after_stage mp t = record {
    priv = some (record mp { mp_table = t.inner.mailspec });
    db = t.inner.db;
    reply = t.reply;
  }

  unfoldable pub evaluate : Stage → String → MilterPriv → Callback
  unfolding milter_acl
  evaluate stage stagename mp s =
      let (r, t) = milter_acl a updates stage stagename (acl_state s mp) in (r, after_stage mp t)

  abbrev pub run_prepared : Stage → String → Bool × MilterPriv → Callback
  run_prepared stage stagename (true, mp) s = evaluate stage stagename mp s
  run_prepared stage stagename (false, mp) s = (ok smfis_tempfail, with_priv s (some mp))

  -- A callback without private data, or without a stage before it, fails temporarily.
  unfoldable pub callback : Stage → String → Preparation → Callback
  unfolding enter evaluate
  callback stage stagename prepare s = elim s.priv [
    | none ↦ (ok smfis_tempfail, s)
    | some mp ↦ elim (enter l stage stagename mp) [
      | none ↦ (ok smfis_tempfail, with_priv s none)
      | some mp₁ ↦ run_prepared stage stagename (prepare mp₁) s
    ]
  ]

  unfoldable pub milter_unknown : String → Callback
  unfolding callback unknown_command
  milter_unknown cmd = callback unknown "unknown" (unknown_command cmd)

  unfoldable pub milter_helo : String → Callback
  unfolding callback helo_name
  milter_helo helostr = callback helo "helo" (helo_name helostr)

  unfoldable pub milter_envfrom : String → Callback
  unfolding callback sender
  milter_envfrom arg = callback envfrom "envfrom" (sender l arg)

  -- The recipient is appended to the list if the answer lets it pass. A record of that name that is no
  -- list would be read as one.
  abbrev pub append_recipient : String → Sfsistat → Callback
  append_recipient rcpt stat s = elim s.priv [
    | none ↦ (ok stat, s)
    | some mp ↦ elim (vtable_list_append_new mp.mp_table "recipient_list" (string (some rcpt))) [
      | none ↦ (fail undefined, s)
      | some m ↦ (ok stat, with_priv s (some (record mp { mp_table = m })))
    ]
  ]

  abbrev pub passed_recipient : String → Result Sfsistat → Callback
  passed_recipient rcpt (ok smfis_continue) s = append_recipient rcpt smfis_continue s
  passed_recipient rcpt (ok smfis_accept) s = append_recipient rcpt smfis_accept s
  passed_recipient rcpt r s = (r, s)

  -- The switch after the access list is reached only with a mailbox.
  unfoldable pub milter_envrcpt : String → Callback
  unfolding callback recipient vtable_list_append_new
  milter_envrcpt arg s =
      let (r, t) = callback envrcpt "envrcpt" (recipient l arg) s in
      elim (mailbox l arg) [ none ↦ (r, t) | some (rcpt, domain) ↦ passed_recipient rcpt r t ]

  unfoldable pub milter_data : Callback
  unfolding callback recipient_count
  milter_data = callback data_stage "data" recipient_count

  unfoldable pub milter_header : String → String → Callback
  unfolding callback message_header
  milter_header headerf headerv = callback header "header" (message_header l headerf headerv)

  unfoldable pub milter_eoh : Callback
  unfolding callback headers
  milter_eoh = callback eoh "eoh" headers

  unfoldable pub milter_body : String → Callback
  unfolding callback body_part
  milter_body chunk = callback body "body" (body_part chunk)

  -- `milter_priv_clear_msg` reads through the private data.
  unfoldable pub clear_msg : Sfsistat → Callback
  unfolding milter_priv_clear_msg
  clear_msg stat s = elim s.priv [
    | none ↦ (fail null_pointer, s)
    | some mp ↦ (ok stat, with_priv s (some (milter_priv_clear_msg mp)))
  ]

  abbrev pub ends : (Sfsistat → Callback) → Result Sfsistat × Session → Result Sfsistat × Session
  ends f (ok stat, s) = f stat s
  ends f (fail e, s) = (fail e, s)

  unfoldable pub milter_eom : Callback
  unfolding callback message clear_msg
  milter_eom s = ends clear_msg (callback eom "eom" message s)

  abbrev pub no_preparation : Preparation
  no_preparation mp = (true, mp)

  unfoldable pub milter_abort : Callback
  unfolding callback clear_msg
  milter_abort s = ends (λ stat. clear_msg smfis_continue) (callback abort "abort" no_preparation s)

  -- `milter_common_fini` deletes the private data.
  unfoldable pub milter_close : Callback
  unfolding callback
  milter_close s =
      ends (λ stat t. (ok smfis_continue, with_priv t none))
        (callback close "close" no_preparation s)

  -- The connection goes on if the first stage was prepared, whatever the access list answers in it.
  abbrev pub connected : String → Option ℕ → Session → Bool × MilterPriv → Result Sfsistat × Session
  connected hostname hostaddr s (false, mp) = (ok smfis_tempfail, with_priv s (some mp))
  connected hostname hostaddr s (true, mp) =
      ends (λ stat. callback connect "connect" (connection l hostname hostaddr))
        (evaluate init "init" mp s)

  unfoldable pub milter_connect : String → Option ℕ → Callback
  unfolding callback connection init_stage enter_init
  milter_connect hostname hostaddr s = connected hostname hostaddr s (init_stage l (enter_init l))

  -- One call of libmilter, which makes them in any order
  pub data Command : Type 0 where
    on_connect : String → Option ℕ → Command
    on_unknown on_helo on_envfrom on_envrcpt on_body : String → Command
    on_header : String → String → Command
    on_data on_eoh on_eom on_abort on_close : Command

  unfoldable pub serve : Command → Callback
  unfolding milter_connect milter_unknown milter_helo milter_envfrom milter_envrcpt milter_data
      milter_header milter_eoh milter_body milter_eom milter_abort milter_close
  serve (on_connect hostname hostaddr) = milter_connect hostname hostaddr
  serve (on_unknown cmd) = milter_unknown cmd
  serve (on_helo helostr) = milter_helo helostr
  serve (on_envfrom arg) = milter_envfrom arg
  serve (on_envrcpt arg) = milter_envrcpt arg
  serve on_data = milter_data
  serve (on_header headerf headerv) = milter_header headerf headerv
  serve on_eoh = milter_eoh
  serve (on_body chunk) = milter_body chunk
  serve on_eom = milter_eom
  serve on_abort = milter_abort
  serve on_close = milter_close

  -- The sessions that calls lead to, from one without private data
  pub data Reach : Session → Type 0 where
    start : (s : Session) → s.priv ≡ none → Reach s
    step : (s : Session) → Reach s → (c : Command) → Reach (serve c s).1
