-- ===== src/Greylist.antt =====
-- Greylisting (src/greylist.c). A record of the greylist table is a `Tuple` under its key; a rule's
-- requested properties are a `Greylist`. What the code takes from elsewhere is an `Env`: the
-- expression evaluator, two configuration values and the database. Expressions may change the
-- mailspec, as assignments and symbol callbacks do. Times are `VAR_INT_T`, read as integers; a sum
-- that leaves 64 bits is undefined in C and is not modelled.
mod Record
pub mod Handler
pub mod Recipient
pub mod Schedule
pub mod Pass
pub mod Message
mod Tests
use mopher.Prelude.{String, Bool, true, false, not, Option, none, some, if◌then◌else◌}
use mopher.Prelude.Int.{ℤ, pos, ◌+ℤ◌, ◌-ℤ◌, ltb_ℤ, eqb_ℤ, to_int}
use mopher.Var.{Vars, int}
use mopher.Exec.{Exec, ok, fail, error, pure, ◌>>=◌, ◌>>◌}
use mopher.Dbt.{Key}
unfoldable pub use mopher.Greylist.Record.{
  greylist_create, greylist_deadline, greylist_delay, greylist_attempts, greylist_visa,
  greylist_tuple_counted,
}
pub use mopher.Greylist.Record.{
  counted, appended, failed, Tuple, Env, Flags, Greylist, is_empty, Counted, count_up, int_result,
  eval_int, fresh, or_default, has_waited, let_pass, keep_waiting, admit,
}

module _ (env : Env) where
  open env use {Exp, exp_eval, cf_greylist_deadline, cf_greylist_visa, dbt}

  pub record State : Type 0 where
    pub mailspec : Vars
    pub db : dbt.Db

  abbrev pub Handling : Type 0 → Type 0
  Handling A = Exec State A

  -- An absent expression is zero.
  unfoldable pub greylist_eval : Option Exp → Handling ℤ
  greylist_eval none s = (ok (pos 0), s)
  greylist_eval (some e) s =
      let (v, m) = exp_eval e s.mailspec in (eval_int v, record s { mailspec = m })

  -- One round of the loop in `greylist_properties`: a property keeps its value unless requested.
  unfoldable pub greylist_property : Bool → Option Exp → ℤ → Handling ℤ
  unfolding greylist_eval
  greylist_property true e old s = greylist_eval e s
  greylist_property false e old s = (ok old, s)

  unfoldable pub greylist_properties : Greylist Exp → Tuple → Handling Tuple
  unfolding greylist_property
  greylist_properties gl t = do
    deadline ← greylist_property gl.flags.deadline gl.deadline t.deadline
    delay ← greylist_property gl.flags.delay gl.delay t.delay
    attempts ← greylist_property gl.flags.attempts gl.attempts t.attempts
    visa ← greylist_property gl.flags.visa gl.visa t.visa
    pure (record t {
      deadline = deadline;
      delay = delay;
      attempts = attempts;
      visa = visa;
      expire = if gl.flags.deadline then t.created +ℤ deadline else t.expire;
    })

  unfoldable pub tuple_counted : String → String → Handling Counted
  unfolding greylist_tuple_counted
  tuple_counted haystack needle s =
      let (c, m) = greylist_tuple_counted s.mailspec haystack needle in
      (ok c, record s { mailspec = m })

  -- `dbt_db_get` and `dbt_db_set`, -1 where the call fails
  unfoldable pub db_get : Key → Handling (Option Tuple)
  db_get k s = elim (dbt.get s.db k) [ none ↦ (fail error, s) | some r ↦ (ok r, s) ]

  unfoldable pub db_set : Key → Tuple → Handling (Unit {0})
  db_set k t s =
      let (done, db') = dbt.set s.db k t in
      (if done then ok tt else fail error, record s { db = db' })

  unfoldable pub greylist_add : Greylist Exp → Key → ℤ → Handling (Bool × ℤ)
  unfolding greylist_properties db_set
  greylist_add gl k received = do
    t ← greylist_properties gl (fresh received)
    let deadline = or_default t.deadline cf_greylist_deadline
    let visa = or_default t.visa cf_greylist_visa
    db_set k (record t { deadline = deadline; visa = visa; expire = received +ℤ deadline })
    pure (true, pos 0)

  -- The record passes: it is kept for the visa, and counted once per message.
  unfoldable pub passed_counted : Key → Tuple → ℤ → ℤ → Counted → Handling (Bool × ℤ)
  unfolding db_set
  passed_counted k t received passed_delay c = do
    db_set k (let_pass t received c)
    pure (false, if eqb_ℤ (count_up c t.passed) (pos 1) then passed_delay else pos 0)

  unfoldable pub recipient_passed : Key → Tuple → ℤ → ℤ → Handling (Bool × ℤ)
  unfolding tuple_counted
  recipient_passed k t received passed_delay = do
    c ← tuple_counted "greylist_passed_counted" k.envrcpt
    passed_counted k t received passed_delay c

  -- "Greylisting in action"
  unfoldable pub recipient_deferred : Key → Tuple → ℤ → Handling (Bool × ℤ)
  unfolding db_set
  recipient_deferred k t received = do db_set k (keep_waiting t received); pure (true, pos 0)

  unfoldable pub recipient_decided : Key → Tuple → ℤ → Handling (Bool × ℤ)
  unfolding recipient_passed passed_counted recipient_deferred
  recipient_decided k t received =
      if has_waited t received
      then recipient_passed k t received (to_int (received -ℤ t.created))
      else recipient_deferred k t received

  -- The rest of `greylist_recipient` for a record that has not expired.
  unfoldable pub recipient_known : Greylist Exp → Key → Tuple → ℤ → Handling (Bool × ℤ)
  unfolding greylist_properties tuple_counted recipient_decided
  recipient_known gl k found received = do
    t ← greylist_properties gl found
    c ← tuple_counted "greylist_connection_counted" k.envrcpt
    recipient_decided k (record t { connections = count_up c t.connections }) received

  unfoldable pub recipient_found : Greylist Exp → Key → ℤ → Option Tuple → Handling (Bool × ℤ)
  unfolding greylist_add recipient_known
  recipient_found gl k received none =
      if is_empty gl then pure (false, pos 0) else greylist_add gl k received
  recipient_found gl k received (some t) =
      if ltb_ℤ t.expire received
      then greylist_add gl k received
      else recipient_known gl k t received

  -- Whether to defer, and the delay that a message that just passed has had.
  unfoldable pub greylist_recipient : Greylist Exp → Key → ℤ → Handling (Bool × ℤ)
  unfolding db_get recipient_found
  greylist_recipient gl k received = do found ← db_get k; recipient_found gl k received found

  -- `greylist_pass`, called by a client of the control socket at the time `now`, an `int`: whether a
  -- record was there to pass. The mailspec plays no part.
  unfoldable pub pass_found : Key → ℤ → Option Tuple → Handling Bool
  unfolding db_set
  pass_found k now none = pure false
  pass_found k now (some t) =
      if ltb_ℤ (pos 0) t.passed then pure false else do db_set k (admit t now); pure true

  unfoldable pub greylist_pass : Key → ℤ → Handling Bool
  unfolding db_get pass_found
  greylist_pass k now = do found ← db_get k; pass_found k now found
