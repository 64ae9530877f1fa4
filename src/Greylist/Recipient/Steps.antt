-- ===== src/Greylist/Recipient/Steps.antt =====
-- What the single steps of a decision leave alone: the evaluation of requested properties, the count, a
-- read and a write of the database.
use mopher.Prelude.{
  ◌≡◌, refl, Bool, true, false, inl, inr, Option, none, some, String, arith, Bool-cases,
  if◌then◌else◌, ◌∙◌,
}
use mopher.Prelude.Int.{ℤ, ◌+ℤ◌}
use mopher.Exec.Post.{Post, Post-bind}
use mopher.Dbt.{Key, key_eq, key_eq_refl}
use mopher.Greylist.{
  Env, Tuple, Greylist, State, greylist_property, greylist_properties, tuple_counted, db_get,
  db_set,
}

module _ (env : Env) where
  open env use {Exp, cf_greylist_deadline, cf_greylist_visa, dbt}

  -- The write that a call ends with: one record is stored, and no other is touched.
  pub record Stored (k : Key) (t : Tuple) (s s' : State env) : Type 0 where
    pub at_key : dbt.get s'.db k ≡ some (some t)
    pub elsewhere : (j : Key) → key_eq k j ≡ false → dbt.get s'.db j ≡ dbt.get s.db j

  abbrev pub Unmoved : {A : Type 0} → State env → A → State env → Type 0
  Unmoved s _ s' = s'.db ≡ s.db

  pub property-Unmoved :
      (b : Bool) (e : Option Exp) (old : ℤ) (s : State env)
      → Post (greylist_property env b e old) s (Unmoved s)
  unfolding greylist_property
  property-Unmoved true none old s = refl
  property-Unmoved true (some e) old s = ground arith
  property-Unmoved false e old s = refl

  -- What the evaluation of the requested properties leaves alone.
  pub record Requested (gl : Greylist Exp) (t t' : Tuple) : Type 0 where
    pub created : t'.created ≡ t.created
    pub updated : t'.updated ≡ t.updated
    pub connections : t'.connections ≡ t.connections
    pub passed : t'.passed ≡ t.passed
    pub expire : t'.expire ≡ (if gl.flags.deadline then t.created +ℤ t'.deadline else t.expire)

  pub properties-Requested :
      (gl : Greylist Exp) (t : Tuple) (s : State env)
      → Post (greylist_properties env gl t) s (λ t' s'. Requested gl t t' × (s'.db ≡ s.db))
  unfolding greylist_properties
  properties-Requested gl t s =
      Post-bind (greylist_property env gl.flags.deadline gl.deadline t.deadline) _ s (Unmoved s) _
        (property-Unmoved _ _ _ s)
        λ deadline s₁ e₁.
          Post-bind (greylist_property env gl.flags.delay gl.delay t.delay) _ s₁ (Unmoved s₁) _
            (property-Unmoved _ _ _ s₁)
            λ delay s₂ e₂.
              Post-bind (greylist_property env gl.flags.attempts gl.attempts t.attempts) _ s₂
                (Unmoved s₂) _ (property-Unmoved _ _ _ s₂)
                λ attempts s₃ e₃.
                  Post-bind (greylist_property env gl.flags.visa gl.visa t.visa) _ s₃ (Unmoved s₃) _
                    (property-Unmoved _ _ _ s₃)
                    λ visa s₄ e₄. (
                      record {
                        created = refl;
                        updated = refl;
                        connections = refl;
                        passed = refl;
                        expire = refl;
                      },
                      e₄ ∙ e₃ ∙ e₂ ∙ e₁,
                    )

  pub counted-Unmoved :
      (haystack needle : String) (s : State env)
      → Post (tuple_counted env haystack needle) s (Unmoved s)
  unfolding tuple_counted
  counted-Unmoved haystack needle s = refl

  pub db_get-Post :
      (k : Key) (s : State env)
      → Post (db_get env k) s (λ r s'. (s' ≡ s) × (dbt.get s.db k ≡ some r))
  unfolding db_get
  db_get-Post k s = ground arith

  pub db_set-Stored :
      (k : Key) (t : Tuple) (s : State env) → Post (db_set env k t) s (λ _ s'. Stored k t s s')
  unfolding db_set
  db_set-Stored k t s = elim (Bool-cases (dbt.set s.db k t).0) [
    | inl done ↦ rw done (record {
      at_key = rw (dbt.get-set s.db k k t done, key_eq_refl k);
      elsewhere = λ j h. rw (dbt.get-set s.db k j t done, h);
    })
    | inr bad ↦ rw bad tt
  ]
