-- ===== src/Milter/Answer.antt =====
-- The answers to the mail server, with the replies that they come with.
use mopher.Prelude.{◌≡◌, refl, ◌⊎◌, inl, inr, String, Option}
use mopher.Exec.Post.{Post, Post-bind}
use mopher.Stage.{Stage, unknown}
use mopher.Action.{ActionType, acl_error, acl_reject, acl_tempfail, acl_greylist}
use mopher.Greylist.{State}
use mopher.Acl.{AclEnv, AclState, acl}
use mopher.Acl.Rules.{IsSilent, acl-unknown}
use mopher.Acl.Replies.{acl-Fits}
use mopher.Acl.Replies.Send.{HasDigit, Fits}
use mopher.Milter.{
  Sfsistat, smfis_continue, smfis_reject, smfis_tempfail, sfsistat, after_acl, milter_acl,
}

-- The replies that an answer may come with, if it comes with one: an access list that fails is
-- answered by a temporary failure, whatever was sent before.
abbrev pub Suits : Sfsistat → Option (String × Option String × String) → Type 0
Suits smfis_reject r = HasDigit b'5' r
Suits smfis_tempfail r = HasDigit b'4' r ⊎ HasDigit b'5' r
Suits _ r = ⊥

Fits-Suits :
    (x : ActionType) (r : Option (String × Option String × String))
    → Fits x r
    → Suits (sfsistat x) r
Fits-Suits acl_reject r h = h
Fits-Suits acl_tempfail r h = inl h
Fits-Suits acl_greylist r h = inl h
Fits-Suits acl_error r h = h
Fits-Suits _ r h = absurd h

module _ (a : AclEnv) (callbacks : Stage → ActionType → State a.env → State a.env) where
  answered :
      (x : ActionType) (s s₁ : AclState a)
      → (s₁.reply ≡ s.reply) ⊎ Fits x s₁.reply
      → (s₁.reply ≡ s.reply) ⊎ Suits (sfsistat x) s₁.reply
  answered x s s₁ (inl e) = inl e
  answered x s s₁ (inr h) = inr (Fits-Suits x s₁.reply h)

  -- Where `milter_acl` returns, the reply held for the message is the one from before, or the mail server is
  -- told to reject and the code is 5xx, or it is told to fail temporarily and the code is 4xx or 5xx.
  pub milter_acl-Suits :
      (stage : Stage) (stagename : String) (s : AclState a)
      → Post
          (milter_acl a callbacks stage stagename)
          s
          (λ x s'. (s'.reply ≡ s.reply) ⊎ Suits x s'.reply)
  unfolding milter_acl after_acl
  milter_acl-Suits stage stagename s =
      Post-bind (acl a stage stagename 0) (after_acl a callbacks stage) s
        (λ x s'. (s'.reply ≡ s.reply) ⊎ Fits x s'.reply)
        (λ x s'. (s'.reply ≡ s.reply) ⊎ Suits x s'.reply) (acl-Fits a stage stagename 0 s)
        (λ x s₁ h. answered x s s₁ h)

  undecided :
      (x : ActionType)
      → IsSilent a x
      → (sfsistat x ≡ smfis_continue) ⊎ (sfsistat x ≡ smfis_tempfail)
  undecided x (inl e) = rw e (inl refl)
  undecided x (inr e) = rw e (inr refl)

  -- In the stage of an unknown command the mail server is told to continue or to fail temporarily, where
  -- `milter_acl` returns.
  pub milter_acl-unknown :
      (stagename : String) (s : AclState a)
      → Post
          (milter_acl a callbacks unknown stagename)
          s
          (λ x s'. (x ≡ smfis_continue) ⊎ (x ≡ smfis_tempfail))
  unfolding milter_acl after_acl
  milter_acl-unknown stagename s =
      Post-bind (acl a unknown stagename 0) (after_acl a callbacks unknown) s (λ x s'. IsSilent a x)
        (λ x s'. (x ≡ smfis_continue) ⊎ (x ≡ smfis_tempfail)) (acl-unknown a stagename 0 s)
        (λ x s₁ h. undecided x h)
