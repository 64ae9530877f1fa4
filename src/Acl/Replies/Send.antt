-- ===== src/Acl/Replies/Send.antt =====
-- What the functions that send a reply leave of it.
use mopher.Prelude.{
  ℕ, String, ◌≡◌, refl, Option, none, some, arith, Bool-cases, inl, inr, ◌⊎◌, ◌∙◌, Option-cases,
  ◌==◌, ==_iff,
}
use mopher.Vtable.{vtable_get}
use mopher.Exec.{Result, ok, fail, continue}
use mopher.Action.{ActionType, acl_error, acl_reject, acl_tempfail, acl_greylist}
use mopher.Acl.{
  AclEnv, AclState, Acl, Reply, first, reply_digit, eval_text, eval_xcode, milter_set_reply,
  send_reply, acl_set_reply, send_coded,
}

-- A reply whose code begins with the digit
abbrev pub HasDigit : ℕ → Option (String × Option String × String) → Type 0
HasDigit d none = ⊥
HasDigit d (some r) = first r.0 ≡ d

-- The replies that an answer may come with, if it comes with one: an error may follow a reply of a
-- table that was called.
abbrev pub Fits : ActionType → Option (String × Option String × String) → Type 0
Fits acl_reject r = HasDigit b'5' r
Fits acl_tempfail r = HasDigit b'4' r
Fits acl_greylist r = HasDigit b'4' r
Fits acl_error r = HasDigit b'4' r ⊎ HasDigit b'5' r
Fits _ r = ⊥

module _ (a : AclEnv) where
  open a use {env, Other, acl_tables}
  open env use {Exp}

  eval_text-reply : (e : Option Exp) (s : AclState a) → (eval_text a e s).1.reply ≡ s.reply
  unfolding eval_text
  eval_text-reply none s = refl
  eval_text-reply (some e) s = ground arith

  eval_xcode-reply : (e : Option Exp) (s : AclState a) → (eval_xcode a e s).1.reply ≡ s.reply
  unfolding eval_xcode
  eval_xcode-reply none s = refl
  eval_xcode-reply (some e) s = ground arith

  -- What a call leaves of the reply: as it was, or one with the digit.
  abbrev pub Sent : ℕ → AclState a → AclState a → Type 0
  Sent d s s' = (s'.reply ≡ s.reply) ⊎ HasDigit d s'.reply

  set_reply-Sent :
      (code : String) (xcode : Option String) (message : String) (s : AclState a)
      → Sent (first code) s (milter_set_reply a code xcode message s).1
  unfolding milter_set_reply
  set_reply-Sent code xcode message s =
      elim (Option-cases (vtable_get s.inner.mailspec "milter_ctx")) [
        | inl e ↦ rw (e, milter_set_reply) (inl refl)
        | inr (ctx, e) ↦
            rw (e, milter_set_reply)
              (elim (Bool-cases (a.smfi_setreply code xcode message)) [
                | inl t ↦ rw t (inr refl)
                | inr f ↦ rw f (inl refl)
              ])
      ]

  Sent-trans : (d : ℕ) (s s₁ s₂ : AclState a) → Sent d s s₁ → Sent d s₁ s₂ → Sent d s s₂
  Sent-trans d s s₁ s₂ (inl e) (inl e') = inl (e' ∙ e)
  Sent-trans d s s₁ s₂ (inr h) (inl e') = inr (rw e' h)
  Sent-trans d s s₁ s₂ h (inr h') = inr h'

  continue-Sent :
      {A B : Type 0} (d : ℕ) (r : Result A) (f : A → Acl a B) (s s₁ : AclState a)
      → Sent d s s₁
      → ((x : A) → Sent d s₁ (f x s₁).1)
      → Sent d s (continue r f s₁).1
  continue-Sent d (ok x) f s s₁ h k = Sent-trans d s s₁ (f x s₁).1 h (k x)
  continue-Sent d (fail e) f s s₁ h k = h

  send_reply-Sent :
      (ar : Reply Exp) (code : String) (s : AclState a)
      → Sent (first code) s (send_reply a ar code s).1
  unfolding send_reply
  send_reply-Sent ar code s =
      continue-Sent (first code) (eval_text a ar.message s).0 _ s (eval_text a ar.message s).1
        (inl (eval_text-reply ar.message s))
        λ message.
          let s₁ = (eval_text a ar.message s).1 in
          continue-Sent (first code) (eval_xcode a ar.xcode s₁).0 _ s₁ (eval_xcode a ar.xcode s₁).1
            (inl (eval_xcode-reply ar.xcode s₁))
            λ xcode. set_reply-Sent code xcode message (eval_xcode a ar.xcode s₁).1

  -- A reply is sent only for an answer that takes one, with the digit of that answer.
  abbrev pub SentFor : Option ℕ → AclState a → AclState a → Type 0
  SentFor none s s' = s'.reply ≡ s.reply
  SentFor (some d) s s' = Sent d s s'

  coded :
      (o : Option ℕ) (ar : Reply Exp) (code : String) (s s₁ : AclState a)
      → s₁.reply ≡ s.reply
      → SentFor o s (send_coded a o ar code s₁).1
  unfolding send_coded
  coded none ar code s s₁ e = e
  coded (some d) ar code s s₁ e = elim (Bool-cases (first code == d)) [
    | inl y ↦ rw y (
        rw ((==_iff (first code) d).0 y) at (
          Sent-trans (first code) s s₁ (send_reply a ar code s₁).1 (inl e)
            (send_reply-Sent ar code s₁)))
    | inr n ↦ rw n (inl e)
  ]

  set-SentFor :
      (o : Option ℕ) (r : Result String) (ar : Reply Exp) (s s₁ : AclState a)
      → s₁.reply ≡ s.reply
      → SentFor o s (continue r (send_coded a o ar) s₁).1
  set-SentFor o (ok code) ar s s₁ e = coded o ar code s s₁ e
  set-SentFor none (fail x) ar s s₁ e = e
  set-SentFor (some d) (fail x) ar s s₁ e = inl e

  pub acl_set_reply-SentFor :
      (ar : Reply Exp) (type : ActionType) (s : AclState a)
      → SentFor (reply_digit type) s (acl_set_reply a ar type s).1
  unfolding acl_set_reply
  acl_set_reply-SentFor ar type s =
      set-SentFor (reply_digit type) (eval_text a ar.code s).0 ar s (eval_text a ar.code s).1
        (eval_text-reply ar.code s)
