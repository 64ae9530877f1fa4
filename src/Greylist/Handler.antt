-- ===== src/Greylist/Handler.antt =====
-- `greylist` of src/greylist.c, the handler of the ACL action: in the recipient's stage it looks at
-- one recipient, and in a later stage at all recipients of the message.
use mopher.Prelude.{
  String, Bool, true, false, Option, none, some, List, [], ◌∷◌, ltb, if◌then◌else◌,
}
use mopher.Prelude.Int.{ℤ, pos, ltb_ℤ, eqb_ℤ}
use mopher.Var.{Vars, nil, cons, int, v_data, as_string, as_int, as_list}
use mopher.Vtable.{vtable_get, vtable_set_new, vtable_dereference}
use mopher.Exec.{Result, ok, fail, error, uninitialized, pure, raise, gets, deref, ◌>>=◌}
use mopher.Stage.{Stage, is_envrcpt}
use mopher.Action.{ActionType, acl_error, acl_none, acl_greylist}
use mopher.Greylist.{Env, Greylist, Handling, greylist_recipient}

abbrev pub symbols : List String
symbols = "origin" ∷ "envfrom_addr" ∷ "envrcpt_addr" ∷ "recipient_list" ∷ "received" ∷ []

-- `vtable_get` at the type of the pointer that it is stored in
abbrev pub get_string : Vars → String → Option String
get_string m k = elim (vtable_get m k) [ none ↦ none | some d ↦ as_string d ]

abbrev pub get_int : Vars → String → Option ℤ
get_int m k = elim (vtable_get m k) [ none ↦ none | some d ↦ as_int d ]

abbrev pub get_list : Vars → String → Option Vars
get_list m k = elim (vtable_get m k) [ none ↦ none | some d ↦ as_list d ]

module _ (env : Env) where
  open env use {Exp}

  -- The end of a round: a deferred recipient ends the loop, and a delay that is the longest is kept.
  unfoldable pub after_recipient :
      (ℤ → Handling env (Bool × ℤ)) → ℤ → Bool × ℤ → Handling env (Bool × ℤ)
  after_recipient rest max_delay (true, delay) = pure (true, max_delay)
  after_recipient rest max_delay (false, delay) =
      rest (if ltb_ℤ max_delay delay then delay else max_delay)

  -- The loop over the recipients. A failure of one ends it too.
  unfoldable pub greylist_all :
      Greylist Exp → String → String → ℤ → Vars → ℤ → Handling env (Bool × ℤ)
  unfolding after_recipient
  greylist_all gl origin envfrom received nil max_delay = pure (false, max_delay)
  greylist_all gl origin envfrom received (cons rcpt rest) max_delay = do
    envrcpt ← deref (as_string (v_data rcpt))
    r ←
        greylist_recipient env gl (record { origin = origin; envfrom = envfrom; envrcpt = envrcpt })
          received
    after_recipient (greylist_all gl origin envfrom received rest) max_delay r

  -- What the handler makes of the result, -1 included.
  unfoldable pub answer : Result (Bool × ℤ) → Handling env ActionType
  answer (fail error) s = (ok acl_error, s)
  answer (fail e) s = (fail e, s)
  answer (ok (true, delay)) s = (ok acl_greylist, s)
  answer (ok (false, delay)) s = if eqb_ℤ delay (pos 0) then (ok acl_none, s) else (
    ok acl_none,
    record s { mailspec = vtable_set_new s.mailspec "greylist_delayed" (int (some delay)) },
  )

  -- `defer` is assigned in the loop, so not for an empty list.
  unfoldable pub greylist_list : Greylist Exp → String → String → ℤ → Vars → Handling env (Bool × ℤ)
  unfolding greylist_all
  greylist_list gl origin envfrom received nil = raise uninitialized
  greylist_list gl origin envfrom received (cons rcpt rest) =
      greylist_all gl origin envfrom received (cons rcpt rest) (pos 0)

  -- The recipients of the stage. The test
  -- on the count lets one missing symbol pass; one that is then used is a null pointer.
  unfoldable pub greylist_recipients : Greylist Exp → Stage → Handling env (Bool × ℤ)
  unfolding greylist_list
  greylist_recipients gl stage = do
    m ← gets (λ s. s.mailspec)
    origin ← deref (get_string m "origin")
    envfrom ← deref (get_string m "envfrom_addr")
    received ← deref (get_int m "received")
    if is_envrcpt stage
        then (do
          envrcpt ← deref (get_string m "envrcpt_addr")
          greylist_recipient env gl
              (record { origin = origin; envfrom = envfrom; envrcpt = envrcpt }) received)
        else (do
          recipients ← deref (get_list m "recipient_list")
          greylist_list gl origin envfrom received recipients)

  unfoldable pub greylist : Stage → Greylist Exp → Handling env ActionType
  unfolding greylist_recipients answer
  greylist stage gl s =
      if ltb (vtable_dereference s.mailspec symbols) 4
      then (ok acl_error, s)
      else let (r, s') = greylist_recipients gl stage s in answer r s'
