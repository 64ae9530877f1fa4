-- ===== src/Milter/Tests.antt =====
-- The milter with the access list of Acl/Sample.antt.
use mopher.Prelude.{◌≡◌, refl, ◌⊎◌, none, some, str_eq}
use mopher.Prelude.Int.{pos}
use mopher.Var.{nil, cons, var, string, int, var_true}
use mopher.Vtable.{vtable_lookup, vtable_get, vtable_set_new}
use mopher.Exec.{ok, fail, null_pointer}
use mopher.Exec.Post.{Post}
use mopher.Stage.{Stage, connect, unknown, helo}
use mopher.Action.{ActionType, is_allowed}
use mopher.Acl.{acl, acl_table, acl_rules, handle, acl_match, exp_is_true}
use mopher.Acl.Sample.{config, start, tables}
use mopher.Milter.{
  MilterPriv, smfis_reject, smfis_continue, smfis_tempfail, milter_acl, milter_priv_clear_msg,
}
use mopher.Milter.Answer.{Suits, milter_acl-Suits, milter_acl-unknown}
use mopher.Milter.Callbacks.{Server}
use mopher.Milter.Session.{
  Session, enter, serve, start as no_session, step, on_connect, on_header, on_eom,
}
use mopher.Milter.Measured.{PrivMeasured, Reach-Measured}
use mopher.Milter.Stages.{enter-laststage, serve-answer_without_data}
use mopher.Milter.Clear.{milter_priv_clear_msg-keeps}

refused : (milter_acl config (λ stage x s. s) connect "connect" start).0 ≡ ok smfis_reject
unfolding milter_acl tables var_true acl acl_table acl_rules handle is_allowed vtable_get
    vtable_set_new acl_match exp_is_true
refused = refl

milter_acl-Suits_example :
    Post
      (milter_acl config (λ stage x s. s) connect "connect")
      start
      (λ x s'. (s'.reply ≡ start.reply) ⊎ Suits x s'.reply)
milter_acl-Suits_example = milter_acl-Suits config (λ stage x s. s) connect "connect" start

unknown_sample :
    Post
      (milter_acl config (λ stage x s. s) unknown "connect")
      start
      (λ x s'. (x ≡ smfis_continue) ⊎ (x ≡ smfis_tempfail))
unknown_sample = milter_acl-unknown config (λ stage x s. s) "connect" start

-- A message with a recipient
abbrev message : MilterPriv
message = record {
  mp_table = cons (var (some "envrcpt") (string (some "<b@example.net>"))) nil;
  mp_recipients = pos 1;
  mp_header = some "Subject: hello";
  mp_headerlen = pos 14;
  mp_body = some "hello";
  mp_bodylen = pos 5;
  mp_eom_complete = pos 1;
}

cleared : milter_priv_clear_msg message ≡ record message {
  mp_recipients = pos 0;
  mp_header = none;
  mp_headerlen = pos 0;
  mp_body = none;
  mp_bodylen = pos 0;
}
cleared = milter_priv_clear_msg-keeps message

-- A mail server without macros, on a host whose addresses are read as they are
abbrev server : Server
server = record {
  ctx = 1;
  smfi_getsymval = λ stage name. none;
  strcasecmp = str_eq;
  tolower = λ s. s;
  time = some (pos 1000);
  milter_get_id = some "id";
  util_hostaddr = λ x. some x;
  util_addr_ipv6 = λ x. pos 0;
  util_addrtostr = λ x. some "192.0.2.1";
  milter_origin = λ name address. some name;
}

abbrev no_update : {S : Type 0} → Stage → ActionType → S → S
no_update stage x s = s

abbrev before_connect : Session config no_update server
before_connect = record { priv = none; db = tt; reply = none }

abbrev connected_session : Session config no_update server
connected_session =
    (serve config no_update server (on_connect "mail.example.net" (some 7)) before_connect).1

abbrev with_subject : Session config no_update server
with_subject = (serve config no_update server (on_header "Subject" "hello") connected_session).1

Reach-Measured_example : PrivMeasured with_subject.priv
Reach-Measured_example = Reach-Measured config no_update server with_subject (
    step connected_session
      (step before_connect (no_session before_connect refl)
        (on_connect "mail.example.net" (some 7)))
      (on_header "Subject" "hello"))

abbrev greeted : MilterPriv
greeted = record message { mp_table = cons (var (some "stage") (int (some (pos 2)))) nil }

greeted_stage :
    vtable_lookup greeted.mp_table "stage" ≡ some (var (some "stage") (int (some (pos 2))))
unfolding vtable_lookup
greeted_stage = refl

enter-laststage_example :
    (mp : MilterPriv) × ((enter server helo "helo" greeted ≡ some mp)
      × ((vtable_lookup mp.mp_table "stage" ≡ some (var (some "stage") (int (some (pos 8)))))
          × (vtable_lookup mp.mp_table "laststage"
              ≡ some (var (some "laststage") (int (some (pos 2)))))))
enter-laststage_example = enter-laststage server helo "helo" greeted greeted_stage

answer_without_data_sample :
    serve config no_update server on_eom before_connect ≡ (fail null_pointer, before_connect)
answer_without_data_sample =
    serve-answer_without_data config no_update server on_eom before_connect refl refl
