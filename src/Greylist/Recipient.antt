-- ===== src/Greylist/Recipient.antt =====
-- What a successful call of `greylist_recipient` has done, on every branch.
mod Steps
use mopher.Prelude.{
  ◌≡◌, refl, Bool, true, false, ◌⊎◌, inl, inr, Option, none, some, String, arith, Bool-cases,
  if◌then◌else◌, ◌∙◌, ap,
}
use mopher.Prelude.Int.{ℤ, pos, ◌+ℤ◌, ◌-ℤ◌, ltb_ℤ, eqb_ℤ, to_int}
use mopher.Exec.Post.{Post, Post-bind}
use mopher.Dbt.{Key, key_eq, key_eq_refl}
use mopher.Greylist.{
  Env, Tuple, Greylist, State, Counted, appended, count_up, is_empty, has_waited, fresh,
  greylist_property, greylist_properties, tuple_counted, db_get, db_set, greylist_add,
  recipient_passed, recipient_deferred, passed_counted, recipient_decided, let_pass,
  recipient_found, recipient_known, greylist_recipient,
}
pub use mopher.Greylist.Recipient.Steps.{
  Stored, Requested, Unmoved, properties-Requested, counted-Unmoved, db_get-Post, db_set-Stored,
}

pub record Added (received : ℤ) (t : Tuple) : Type 0 where
  pub created : t.created ≡ received
  pub updated : t.updated ≡ received
  pub connections : t.connections ≡ pos 1
  pub passed : t.passed ≡ pos 0
  pub expire : t.expire ≡ received +ℤ t.deadline

pub record Deferred (received : ℤ) (old t : Tuple) : Type 0 where
  pub created : t.created ≡ old.created
  pub updated : t.updated ≡ received
  pub early : has_waited t received ≡ false
  pub passed : t.passed ≡ pos 0
  pub expire : t.expire ≡ t.created +ℤ t.deadline

pub record Accepted (received delayed : ℤ) (old t : Tuple) : Type 0 where
  pub created : t.created ≡ old.created
  pub updated : t.updated ≡ received
  pub waited : has_waited t received ≡ true
  pub passed : (t.passed ≡ old.passed) ⊎ (t.passed ≡ old.passed +ℤ pos 1)
  pub expire : t.expire ≡ received +ℤ t.visa
  pub reported :
      delayed ≡ (if eqb_ℤ t.passed (pos 1) then to_int (received -ℤ t.created) else pos 0)

module _ (env : Env) where
  open env use {Exp, cf_greylist_deadline, cf_greylist_visa, dbt}

  -- There is no record to go by: none at all, and the rule requests properties, or an expired one.
  pub data Absent (gl : Greylist Exp) (k : Key) (received : ℤ) (s : State env) : Type 0 where
    missing : dbt.get s.db k ≡ some none → is_empty gl ≡ false → Absent gl k received s
    expired :
        (old : Tuple)
        → dbt.get s.db k ≡ some (some old)
        → ltb_ℤ old.expire received ≡ true
        → Absent gl k received s

  -- A record that has not expired.
  pub record Current (k : Key) (received : ℤ) (s : State env) (old : Tuple) : Type 0 where
    pub found : dbt.get s.db k ≡ some (some old)
    pub alive : ltb_ℤ old.expire received ≡ false

  -- The ways in which a call can succeed.
  pub data Verdict (gl : Greylist Exp) (k : Key) (received : ℤ) (s : State env) (r : Bool × ℤ)
      (s' : State env) : Type 0 where
    left_alone :
        dbt.get s.db k ≡ some none
        → is_empty gl ≡ true
        → r ≡ (false, pos 0)
        → s' ≡ s
        → Verdict gl k received s r s'
    added :
        (t : Tuple)
        → Absent gl k received s
        → Stored env k t s s'
        → Added received t
        → r ≡ (true, pos 0)
        → Verdict gl k received s r s'
    deferred :
        (old t : Tuple)
        → Current k received s old
        → Stored env k t s s'
        → Deferred received old t
        → r ≡ (true, pos 0)
        → Verdict gl k received s r s'
    accepted :
        (old t : Tuple)
        → Current k received s old
        → Stored env k t s s'
        → Accepted received r.1 old t
        → r.0 ≡ false
        → Verdict gl k received s r s'

  -- A write after steps that kept the database.
  Stored-after :
      (k : Key) (t : Tuple) (s s₁ s₂ : State env)
      → s₁.db ≡ s.db
      → Stored env k t s₁ s₂
      → Stored env k t s s₂
  Stored-after k t s s₁ s₂ e w = record {
    at_key = w.at_key;
    elsewhere = λ j h. w.elsewhere j h ∙ ap (λ (d : dbt.Db). dbt.get d j) e;
  }

  module _ (gl : Greylist Exp) (k : Key) (received : ℤ) (s : State env) where
    add-Verdict :
        Absent gl k received s → Post (greylist_add env gl k received) s (Verdict gl k received s)
    unfolding greylist_add
    add-Verdict absent =
        Post-bind (greylist_properties env gl (fresh received)) _ s
          (λ t s₁. Requested env gl (fresh received) t × (s₁.db ≡ s.db)) _
          (properties-Requested env gl (fresh received) s)
          λ t s₁ h.
            Post-bind (db_set env k _) _ s₁ (λ _ s₂. Stored env k _ s₁ s₂) _
              (db_set-Stored env k _ s₁)
              λ _ s₂ w.
                added _ absent (Stored-after k _ s s₁ s₂ h.1 w)
                  (record {
                    created = h.0.created;
                    updated = h.0.updated;
                    connections = h.0.connections;
                    passed = h.0.passed;
                    expire = refl;
                  })
                  refl

    deferred-Verdict :
        (old t : Tuple) (s₁ : State env)
        → s₁.db ≡ s.db
        → Current k received s old
        → t.created ≡ old.created
        → has_waited t received ≡ false
        → Post (recipient_deferred env k t received) s₁ (Verdict gl k received s)
    unfolding recipient_deferred
    deferred-Verdict old t s₁ e current created early =
        Post-bind (db_set env k _) _ s₁ (λ _ s₂. Stored env k _ s₁ s₂) _ (db_set-Stored env k _ s₁)
          λ _ s₂ w.
            deferred old _ current (Stored-after k _ s s₁ s₂ e w)
              (record {
                created = created;
                updated = refl;
                early = early;
                passed = refl;
                expire = refl;
              })
              refl

    passed_cases :
        (c : Counted) (t old : Tuple)
        → t.passed ≡ old.passed
        → (count_up c t.passed ≡ old.passed) ⊎ (count_up c t.passed ≡ old.passed +ℤ pos 1)
    passed_cases appended t old e = inr (rw e)
    passed_cases _ t old e = inl e

    accepted-Verdict :
        (old t : Tuple) (s₁ : State env)
        → s₁.db ≡ s.db
        → Current k received s old
        → t.created ≡ old.created
        → t.passed ≡ old.passed
        → has_waited t received ≡ true
        → (c : Counted)
        → Post
            (passed_counted env k t received (to_int (received -ℤ t.created)) c)
            s₁
            (Verdict gl k received s)
    unfolding passed_counted
    accepted-Verdict old t s₁ e current created passed waited c =
        Post-bind (db_set env k (let_pass t received c)) _ s₁
          (λ _ s₂. Stored env k (let_pass t received c) s₁ s₂) (Verdict gl k received s)
          (db_set-Stored env k (let_pass t received c) s₁)
          λ _ s₂ w.
            accepted old (let_pass t received c) current
              (Stored-after k (let_pass t received c) s s₁ s₂ e w)
              (record {
                created = created;
                updated = refl;
                waited = waited;
                passed = passed_cases c t old passed;
                expire = refl;
                reported = refl;
              })
              refl

    passed-Verdict :
        (old t : Tuple) (s₁ : State env)
        → s₁.db ≡ s.db
        → Current k received s old
        → t.created ≡ old.created
        → t.passed ≡ old.passed
        → has_waited t received ≡ true
        → Post
            (recipient_passed env k t received (to_int (received -ℤ t.created)))
            s₁
            (Verdict gl k received s)
    unfolding recipient_passed
    passed-Verdict old t s₁ e current created passed waited =
        Post-bind (tuple_counted env "greylist_passed_counted" k.envrcpt)
          (passed_counted env k t received (to_int (received -ℤ t.created))) s₁ (Unmoved env s₁)
          (Verdict gl k received s) (counted-Unmoved env "greylist_passed_counted" k.envrcpt s₁)
          λ c s₂ e₂. accepted-Verdict old t s₂ (e₂ ∙ e) current created passed waited c

    decided-Verdict :
        (old t : Tuple) (s₁ : State env)
        → s₁.db ≡ s.db
        → Current k received s old
        → t.created ≡ old.created
        → t.passed ≡ old.passed
        → Post (recipient_decided env k t received) s₁ (Verdict gl k received s)
    unfolding recipient_decided
    decided-Verdict old t s₁ e current created passed = elim (Bool-cases (has_waited t received)) [
      | inl waited ↦ rw waited (passed-Verdict old t s₁ e current created passed waited)
      | inr early ↦ rw early (deferred-Verdict old t s₁ e current created early)
    ]

    known-Verdict :
        (old : Tuple)
        → Current k received s old
        → Post (recipient_known env gl k old received) s (Verdict gl k received s)
    unfolding recipient_known
    known-Verdict old current =
        Post-bind (greylist_properties env gl old) _ s
          (λ t s₁. Requested env gl old t × (s₁.db ≡ s.db)) (Verdict gl k received s)
          (properties-Requested env gl old s)
          λ t s₁ h.
            Post-bind (tuple_counted env "greylist_connection_counted" k.envrcpt)
              (λ c.
                recipient_decided env k (record t { connections = count_up c t.connections })
                  received)
              s₁ (Unmoved env s₁) (Verdict gl k received s)
              (counted-Unmoved env "greylist_connection_counted" k.envrcpt s₁)
              λ c s₂ e₂.
                decided-Verdict old (record t { connections = count_up c t.connections }) s₂
                  (e₂ ∙ h.1) current h.0.created h.0.passed

    found-Verdict :
        (found : Option Tuple)
        → dbt.get s.db k ≡ some found
        → Post (recipient_found env gl k received found) s (Verdict gl k received s)
    unfolding recipient_found
    found-Verdict none e = elim (Bool-cases (is_empty gl)) [
      | inl idle ↦ rw idle (left_alone e idle refl refl)
      | inr asked ↦ rw asked (add-Verdict (missing e asked))
    ]
    found-Verdict (some old) e = elim (Bool-cases (ltb_ℤ old.expire received)) [
      | inl late ↦ rw late (add-Verdict (expired old e late))
      | inr alive ↦ rw alive (known-Verdict old (record { found = e; alive = alive }))
    ]

    pub greylist_recipient-Verdict :
        Post (greylist_recipient env gl k received) s (Verdict gl k received s)
    unfolding greylist_recipient
    greylist_recipient-Verdict =
        Post-bind (db_get env k) _ s (λ r s₁. (s₁ ≡ s) × (dbt.get s.db k ≡ some r))
          (Verdict gl k received s) (db_get-Post env k s)
          λ found s₁ h. rw (h.0) (found-Verdict found h.1)
