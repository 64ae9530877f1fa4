-- ===== src/Greylist/Schedule.antt =====
-- When a record of the table expires: a greylisted one at its deadline, one that has passed at the end
-- of its visa. An invariant of the table under every sequence of calls.
use mopher.Prelude.{
  ◌≡◌, refl, Bool, true, ◌⊎◌, inl, inr, Option, none, some, arith, Bool-cases, ◌∙◌, ap, sym,
}
use mopher.Prelude.Int.{ℤ, pos, ◌+ℤ◌, ◌≤ℤ◌, ltb_ℤ}
use mopher.Var.{Vars}
use mopher.Exec.{ok, pure}
use mopher.Exec.Post.{Post, Post-bind, Post-result}
use mopher.Dbt.{Key, key_eq, key_eq_sound}
use mopher.Greylist.{
  Env, Tuple, Greylist, State, admit, db_get, db_set, pass_found, greylist_recipient, greylist_pass,
}
use mopher.Greylist.Recipient.{
  Stored, Added, Deferred, Accepted, Verdict, left_alone, added, deferred, accepted, db_get-Post,
  db_set-Stored, greylist_recipient-Verdict,
}

-- The messages counted are not negative, and the record expires at its deadline while it has let no
-- message through, or at the end of the visa that its last use gave.
pub record IsScheduled (t : Tuple) : Type 0 where
  pub counts : pos 0 ≤ℤ t.passed
  pub expiry :
      ((t.passed ≡ pos 0) × (t.expire ≡ t.created +ℤ t.deadline)) ⊎ (t.expire ≡ t.updated +ℤ t.visa)

Added-IsScheduled : (received : ℤ) (t : Tuple) → Added received t → IsScheduled t
Added-IsScheduled received t h = record {
  counts = rw h.passed (omega arith);
  expiry = inl (h.passed, h.expire ∙ ap (λ n. n +ℤ t.deadline) (sym h.created));
}

Deferred-IsScheduled : (received : ℤ) (old t : Tuple) → Deferred received old t → IsScheduled t
Deferred-IsScheduled received old t h = record {
  counts = rw h.passed (omega arith);
  expiry = inl (h.passed, h.expire);
}

grown : (n m : ℤ) → pos 0 ≤ℤ n → (m ≡ n) ⊎ (m ≡ n +ℤ pos 1) → pos 0 ≤ℤ m
unfolding ◌+ℤ◌
grown n m h (inl e) = rw e h
grown n m h (inr e) = rw e (ground arith)

Accepted-IsScheduled :
    (received delayed : ℤ) (old t : Tuple)
    → IsScheduled old
    → Accepted received delayed old t
    → IsScheduled t
Accepted-IsScheduled received delayed old t v h = record {
  counts = grown old.passed t.passed v.counts h.passed;
  expiry = inr (h.expire ∙ ap (λ n. n +ℤ t.visa) (sym h.updated));
}

admit-IsScheduled : (t : Tuple) (now : ℤ) → IsScheduled t → IsScheduled (admit t now)
admit-IsScheduled t now v = record { counts = v.counts; expiry = inr refl }

same_record : {t u : Tuple} → some (some t) ≡ some (some u) → t ≡ u
same_record e = cc

module _ (env : Env) where
  open env use {Exp, dbt}

  pub record TableIsScheduled (s : State env) : Type 0 where
    pub at_key : (k : Key) (t : Tuple) → dbt.get s.db k ≡ some (some t) → IsScheduled t

  Stored-TableIsScheduled :
      (k : Key) (t : Tuple) (s s' : State env)
      → Stored env k t s s'
      → IsScheduled t
      → TableIsScheduled s
      → TableIsScheduled s'
  Stored-TableIsScheduled k t s s' w v h = record {
    at_key = λ j u e. elim (Bool-cases (key_eq k j)) [
      | inl same ↦
          rw
            (← same_record
              (sym w.at_key ∙ ap (λ (i : Key). dbt.get s'.db i) (key_eq_sound k j same) ∙ e))
            v
      | inr other ↦ h.at_key j u (sym (w.elsewhere j other) ∙ e)
    ];
  }

  Verdict-TableIsScheduled :
      (gl : Greylist Exp) (k : Key) (received : ℤ) (s : State env) (r : Bool × ℤ) (s' : State env)
      → TableIsScheduled s
      → Verdict env gl k received s r s'
      → TableIsScheduled s'
  Verdict-TableIsScheduled gl k received s r s' h (left_alone _ _ _ e) = rw e h
  Verdict-TableIsScheduled gl k received s r s' h (added t _ w a _) =
      Stored-TableIsScheduled k t s s' w (Added-IsScheduled received t a) h
  Verdict-TableIsScheduled gl k received s r s' h (deferred old t _ w d _) =
      Stored-TableIsScheduled k t s s' w (Deferred-IsScheduled received old t d) h
  Verdict-TableIsScheduled gl k received s r s' h (accepted old t c w a _) =
      Stored-TableIsScheduled k t s s' w
        (Accepted-IsScheduled received r.1 old t (h.at_key k old c.found) a) h

  pass_found-TableIsScheduled :
      (k : Key) (now : ℤ) (found : Option Tuple) (s : State env)
      → dbt.get s.db k ≡ some found
      → TableIsScheduled s
      → Post (pass_found env k now found) s (λ _ s'. TableIsScheduled s')
  unfolding pass_found
  pass_found-TableIsScheduled k now none s e h = h
  pass_found-TableIsScheduled k now (some t) s e h = elim (Bool-cases (ltb_ℤ (pos 0) t.passed)) [
    | inl done ↦ rw done h
    | inr waiting ↦ rw waiting (
        Post-bind (db_set env k (admit t now)) (λ _. pure true) s
          (λ _ s'. Stored env k (admit t now) s s') (λ _ s'. TableIsScheduled s')
          (db_set-Stored env k (admit t now) s)
          λ _ s' w.
            Stored-TableIsScheduled k (admit t now) s s' w
              (admit-IsScheduled t now (h.at_key k t e)) h)
  ]

  pass-TableIsScheduled :
      (k : Key) (now : ℤ) (s : State env)
      → TableIsScheduled s
      → Post (greylist_pass env k now) s (λ _ s'. TableIsScheduled s')
  unfolding greylist_pass
  pass-TableIsScheduled k now s h =
      Post-bind (db_get env k) _ s (λ r s₁. (s₁ ≡ s) × (dbt.get s.db k ≡ some r))
        (λ _ s'. TableIsScheduled s') (db_get-Post env k s)
        λ found s₁ g. rw (g.0) (pass_found-TableIsScheduled k now found s g.1 h)

  -- What happens to the table: calls for a recipient, calls from the control socket, and anything that
  -- changes the mailspec, such as the next message.
  pub data Step (s : State env) : State env → Type 0 where
    recipient :
        (gl : Greylist Exp) (k : Key) (received : ℤ) (r : Bool × ℤ) (s' : State env)
        → greylist_recipient env gl k received s ≡ (ok r, s')
        → Step s s'
    pass :
        (k : Key) (now : ℤ) (b : Bool) (s' : State env)
        → greylist_pass env k now s ≡ (ok b, s')
        → Step s s'
    mail : (m : Vars) (s' : State env) → s' ≡ record s { mailspec = m } → Step s s'

  pub data Reach (s : State env) : State env → Type 0 where
    here : Reach s s
    next : {t u : State env} → Reach s t → Step t u → Reach s u

  Step-TableIsScheduled : {s s' : State env} → TableIsScheduled s → Step s s' → TableIsScheduled s'
  Step-TableIsScheduled {s} h (recipient gl k received r s' e) =
      Verdict-TableIsScheduled gl k received s r s' h (
        Post-result (greylist_recipient env gl k received) s (Verdict env gl k received s)
          (greylist_recipient-Verdict env gl k received s) e)
  Step-TableIsScheduled {s} h (pass k now b s' e) =
      Post-result (greylist_pass env k now) s (λ _ s''. TableIsScheduled s'')
        (pass-TableIsScheduled k now s h) e
  Step-TableIsScheduled {s} h (mail m s' e) = rw e (record { at_key = h.at_key })

  -- Whatever sequence of successful calls runs on a table whose records are scheduled, they stay so.
  pub Reach-TableIsScheduled :
      {s s' : State env} → TableIsScheduled s → Reach s s' → TableIsScheduled s'
  Reach-TableIsScheduled h here = h
  Reach-TableIsScheduled h (next r st) = Step-TableIsScheduled (Reach-TableIsScheduled h r) st
