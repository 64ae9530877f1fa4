-- ===== src/Milter/Measured.antt =====
-- The lengths of the header and of the body over the calls of a session of src/milter.c.

use mopher.Prelude.{ℕ, refl, String, Bool, true, false, Option, none, some}
use mopher.Exec.{Result, ok, fail}
use mopher.Stage.{
  Stage, helo, envfrom, envrcpt, data_stage, header, eoh, body, eom, abort, close, unknown, connect,
  init,
}
use mopher.Action.{ActionType}
use mopher.Greylist.{State}
use mopher.Acl.{AclEnv}
use mopher.Vtable.{vtable_rename, vtable_list_append_new}
use mopher.Var.{Vars, string}
use mopher.Milter.{
  Sfsistat, smfis_tempfail, smfis_continue, smfis_accept, MilterPriv, milter_priv_clear_msg,
}
use mopher.Milter.Callbacks.{
  Server, Preparation, unknown_command, helo_name, connection, sender, recipient, recipient_count,
  message_header, headers, body_part, message, init_stage, mailbox,
}
use mopher.Milter.Session.{
  Session, Callback, callback, entered, enter, enter_init, evaluate, milter_unknown, milter_helo,
  milter_envfrom, milter_envrcpt, milter_data, milter_header, milter_eoh, milter_body, milter_eom,
  milter_abort, milter_close, milter_connect, clear_msg, with_priv, run_prepared, append_recipient,
  passed_recipient, ends, connected, no_preparation, Command, serve, Reach, start, step, on_connect,
  on_unknown, on_helo, on_envfrom, on_envrcpt, on_body, on_header, on_data, on_eoh, on_eom,
  on_abort, on_close,
}
use mopher.Milter.Lengths.{
  Measured, Prepares, body_part-Prepares, message_header-Prepares, sender-Prepares,
  connection-Prepares, recipient-Prepares, init_stage-Prepares,
}

abbrev pub PrivMeasured : Option MilterPriv → Type 0
PrivMeasured none = Unit
PrivMeasured (some mp) = Measured mp

enter-Measured :
    (l : Server) (stage : Stage) (name : String) (mp : MilterPriv)
    → Measured mp
    → PrivMeasured (enter l stage name mp)
unfolding enter
enter-Measured l stage name mp h = entered_Measured (vtable_rename mp.mp_table "stage" "laststage")
  where
    entered_Measured :
        (o : Option Vars)
        → PrivMeasured (elim o [
          | none ↦ none
          | some m ↦ some (record mp { mp_table = entered l stage name m })
        ])
    entered_Measured none = tt
    entered_Measured (some m) = h

module _ (a : AclEnv) (updates : Stage → ActionType → State a.env → State a.env) (l : Server) where
  abbrev Keeps : Callback a updates l → Type 0
  Keeps run = (s : Session a updates l) → PrivMeasured s.priv → PrivMeasured (run s).1.priv

  run_prepared-Measured :
      (stage : Stage) (name : String) (p : Bool × MilterPriv) (s : Session a updates l)
      → Measured p.1
      → PrivMeasured (run_prepared a updates l stage name p s).1.priv
  unfolding evaluate
  run_prepared-Measured stage name (true, mp) s h = h
  run_prepared-Measured stage name (false, mp) s h = h

  abbrev prepared : Stage → String → Preparation → Option MilterPriv → Callback a updates l
  prepared stage name p o s = elim o [
    | none ↦ (ok smfis_tempfail, with_priv a updates l s none)
    | some mp₁ ↦ run_prepared a updates l stage name (p mp₁) s
  ]

  prepared-Measured :
      (stage : Stage) (name : String) (p : Preparation) (o : Option MilterPriv)
      (s : Session a updates l)
      → Prepares p
      → PrivMeasured o
      → PrivMeasured (prepared stage name p o s).1.priv
  prepared-Measured stage name p none s k h = tt
  prepared-Measured stage name p (some mp) s k h =
      run_prepared-Measured stage name (p mp) s (k mp h)

  priv-Measured :
      (stage : Stage) (name : String) (p : Preparation) (o : Option MilterPriv)
      (s : Session a updates l)
      → Prepares p
      → PrivMeasured o
      → PrivMeasured s.priv
      → PrivMeasured
          (elim o as (λ x. Result Sfsistat × Session a updates l) [
            | none ↦ (ok smfis_tempfail, s)
            | some mp ↦ prepared stage name p (enter l stage name mp) s
          ]).1.priv
  priv-Measured stage name p none s k h q = q
  priv-Measured stage name p (some mp) s k h q =
      prepared-Measured stage name p (enter l stage name mp) s k (enter-Measured l stage name mp h)

  callback-Measured :
      (stage : Stage) (name : String) (p : Preparation)
      → Prepares p
      → Keeps (callback a updates l stage name p)
  unfolding callback
  callback-Measured stage name p k s h = priv-Measured stage name p s.priv s k h h

  abbrev PairMeasured : Result Sfsistat × Session a updates l → Type 0
  PairMeasured p = PrivMeasured p.1.priv

  option-Measured :
      {A : Type 0} (o : Option A) (n : Result Sfsistat × Session a updates l)
      (f : A → Result Sfsistat × Session a updates l)
      → PairMeasured n
      → ((x : A) → PairMeasured (f x))
      → PairMeasured
          (elim o as (λ x. Result Sfsistat × Session a updates l) [ none ↦ n | some x ↦ f x ])
  option-Measured none n f h k = h
  option-Measured (some x) n f h k = k x

  private_data-Measured :
      (o : Option MilterPriv) (n : Result Sfsistat × Session a updates l)
      (f : MilterPriv → Result Sfsistat × Session a updates l)
      → PrivMeasured o
      → PairMeasured n
      → ((mp : MilterPriv) → Measured mp → PairMeasured (f mp))
      → PairMeasured
          (elim o as (λ x. Result Sfsistat × Session a updates l) [ none ↦ n | some mp ↦ f mp ])
  private_data-Measured none n f h q k = q
  private_data-Measured (some mp) n f h q k = k mp h

  append_recipient-Measured :
      (rcpt : String) (x : Sfsistat) → Keeps (append_recipient a updates l rcpt x)
  append_recipient-Measured rcpt x s h = private_data-Measured s.priv _ _ h h (λ mp q.
      option-Measured (vtable_list_append_new mp.mp_table "recipient_list" (string (some rcpt))) _ _
        h (λ m. q))

  passed_recipient-Measured :
      (rcpt : String) (x : Result Sfsistat) → Keeps (passed_recipient a updates l rcpt x)
  passed_recipient-Measured rcpt (ok smfis_continue) s h =
      append_recipient-Measured rcpt smfis_continue s h
  passed_recipient-Measured rcpt (ok smfis_accept) s h =
      append_recipient-Measured rcpt smfis_accept s h
  passed_recipient-Measured rcpt _ s h = h

  clear_msg-Measured : (x : Sfsistat) → Keeps (clear_msg a updates l x)
  unfolding clear_msg milter_priv_clear_msg
  clear_msg-Measured x s h = private_data-Measured s.priv _ _ h h (λ mp q. (refl, refl))

  ends-Measured :
      (f : Sfsistat → Callback a updates l) (p : Result Sfsistat × Session a updates l)
      → ((x : Sfsistat) → Keeps (f x))
      → PairMeasured p
      → PairMeasured (ends a updates l f p)
  ends-Measured f (ok x, s) k h = k x s h
  ends-Measured f (fail e, s) k h = h

  milter_envrcpt-Measured : (arg : String) → Keeps (milter_envrcpt a updates l arg)
  unfolding milter_envrcpt
  milter_envrcpt-Measured arg s h =
      let called =
        callback-Measured envrcpt "envrcpt" (recipient l arg) (recipient-Prepares l arg) s h in
      option-Measured (mailbox l arg) _ _ called
        (λ (rcpt, domain). passed_recipient-Measured rcpt _ _ called)

  connected-Measured :
      (name : String) (hostaddr : Option ℕ) (p : Bool × MilterPriv) (s : Session a updates l)
      → Measured p.1
      → PairMeasured (connected a updates l name hostaddr s p)
  unfolding evaluate
  connected-Measured name hostaddr (false, mp) s h = h
  connected-Measured name hostaddr (true, mp) s h =
      ends-Measured _ (evaluate a updates l init "init" mp s)
        (λ x.
          callback-Measured connect "connect" (connection l name hostaddr)
            (connection-Prepares l name hostaddr))
        h

  milter_connect-Measured :
      (name : String) (hostaddr : Option ℕ) → Keeps (milter_connect a updates l name hostaddr)
  unfolding milter_connect enter_init
  milter_connect-Measured name hostaddr s h =
      connected-Measured name hostaddr (init_stage l (enter_init l)) s
        (init_stage-Prepares l (enter_init l) (refl, refl))

  ended-Measured :
      (stage : Stage) (name : String) (p : Preparation) (f : Sfsistat → Callback a updates l)
      → Prepares p
      → ((x : Sfsistat) → Keeps (f x))
      → Keeps (λ s. ends a updates l f (callback a updates l stage name p s))
  ended-Measured stage name p f k q s h = ends-Measured f _ q (callback-Measured stage name p k s h)

  serve-Measured : (c : Command a updates l) → Keeps (serve a updates l c)
  unfolding serve milter_unknown milter_helo milter_envfrom milter_data milter_header milter_eoh
      milter_body milter_eom milter_abort milter_close unknown_command helo_name recipient_count
      headers message
  serve-Measured (on_connect name hostaddr) = milter_connect-Measured name hostaddr
  serve-Measured (on_unknown cmd) =
      callback-Measured unknown "unknown" (unknown_command cmd) (λ mp h. h)
  serve-Measured (on_helo helostr) = callback-Measured helo "helo" (helo_name helostr) (λ mp h. h)
  serve-Measured (on_envfrom arg) =
      callback-Measured envfrom "envfrom" (sender l arg) (sender-Prepares l arg)
  serve-Measured (on_envrcpt arg) = milter_envrcpt-Measured arg
  serve-Measured on_data = callback-Measured data_stage "data" recipient_count (λ mp h. h)
  serve-Measured (on_header f v) =
      callback-Measured header "header" (message_header l f v) (message_header-Prepares l f v)
  serve-Measured on_eoh = callback-Measured eoh "eoh" headers (λ mp h. h)
  serve-Measured (on_body chunk) =
      callback-Measured body "body" (body_part chunk) (body_part-Prepares chunk)
  serve-Measured on_eom =
      ended-Measured eom "eom" message (clear_msg a updates l) (λ mp h. h) clear_msg-Measured
  serve-Measured on_abort =
      ended-Measured abort "abort" (no_preparation a updates l) _ (λ mp h. h)
        (λ x. clear_msg-Measured smfis_continue)
  serve-Measured on_close =
      ended-Measured close "close" (no_preparation a updates l) _ (λ mp h. h) (λ x s h. tt)

  -- In every session that calls lead to, whatever their order and the answers of the access list, the lengths of the header and of the body are those of the texts that were collected.
  pub Reach-Measured : (s : Session a updates l) → Reach a updates l s → PrivMeasured s.priv
  Reach-Measured s (start t empty) = rw empty tt
  Reach-Measured s (step t r c) = serve-Measured c t (Reach-Measured t r)
