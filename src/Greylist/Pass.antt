-- ===== src/Greylist/Pass.antt =====
-- What an operator's `greylist_pass` means for the next attempt, under a rule that requests nothing.
use mopher.Prelude.{
  Bool, Bool-cases, inl, inr, ◌≡◌, refl, true, false, Option, some, arith, if◌then◌else◌,
}
use mopher.Prelude.Int.{
  ℤ, pos, ◌+ℤ◌, ◌-ℤ◌, ◌≤ℤ◌, ◌<ℤ◌, ltb_ℤ, eqb_ℤ, int_laws, to_int, to_int-fits, FitsInt, lt→ltb_ℤ,
  le→ltb_ℤ,
}
use mopher.Var.{Vars}
use mopher.Exec.{Result, ok}
use mopher.Dbt.{Key, key_eq_refl}
use mopher.Greylist.{
  Env, Tuple, Greylist, State, Counted, appended, count_up, is_empty, has_waited, admit, let_pass,
  keep_waiting, recipient_deferred, greylist_tuple_counted, tuple_counted, greylist_properties,
  db_get, db_set, recipient_passed, passed_counted, recipient_decided, recipient_known,
  recipient_found, greylist_recipient, pass_found, greylist_pass,
}

module _ (env : Env) where
  open env use {Exp, dbt}

  properties-empty :
      (gl : Greylist Exp) (t : Tuple) (s : State env)
      → is_empty gl ≡ true
      → greylist_properties env gl t s ≡ (ok t, s)
  unfolding greylist_properties
  properties-empty gl t s h = ground arith

  -- Writes that never fail
  pub record IsReliable : Type 0 where
    pub set_done : (db : dbt.Db) (k : Key) (t : Tuple) → (dbt.set db k t).0 ≡ true

  module _ (k : Key) (s : State env) where
    get-found : (r : Option Tuple) → dbt.get s.db k ≡ some r → db_get env k s ≡ (ok r, s)
    unfolding db_get
    get-found r e = rw (e, db_get)

    set-done :
        (t : Tuple)
        → IsReliable
        → db_set env k t s ≡ (ok tt, record s { db = (dbt.set s.db k t).1 })
    unfolding db_set
    set-done t h = rw (h.set_done s.db k t, db_set)

    -- After the operator's call the record reads as admitted.
    pub pass-admits :
        (now : ℤ) (t : Tuple)
        → IsReliable
        → dbt.get s.db k ≡ some (some t)
        → ltb_ℤ (pos 0) t.passed ≡ false
        → greylist_pass env k now s ≡ (ok true, record s { db = (dbt.set s.db k (admit t now)).1 })
    unfolding greylist_pass pass_found
    pass-admits now t h e p =
        rw (get-found (some t) e)
          (rw (p, pass_found) (rw (h.set_done s.db k (admit t now), db_set)))

    -- A call for a record that has not expired, under a rule that requests nothing.
    recipient-empty :
        (gl : Greylist Exp) (received : ℤ) (t : Tuple)
        → is_empty gl ≡ true
        → dbt.get s.db k ≡ some (some t)
        → ltb_ℤ t.expire received ≡ false
        → greylist_recipient env gl k received s ≡ (
            let (c, m) =
              greylist_tuple_counted s.mailspec "greylist_connection_counted" k.envrcpt in
            recipient_decided env k
              (record t { connections = count_up c t.connections })
              received
              (record s { mailspec = m }))
    unfolding greylist_recipient
    recipient-empty gl received t h e alive = rw (get-found (some t) e) (
        unfold recipient_found in
        rw (alive, recipient_found)
          (unfold recipient_known in rw (properties-empty gl t s h) (unfold tuple_counted in refl)))

    counted-passes :
        (t : Tuple) (received d : ℤ) (c : Counted)
        → IsReliable
        → (passed_counted env k t received d c s).0
          ≡ ok (false, if eqb_ℤ (count_up c t.passed) (pos 1) then d else pos 0)
    unfolding passed_counted
    counted-passes t received d c h = rw (h.set_done s.db k (let_pass t received c), db_set)

  -- The delay that a record reports when it lets a message through
  abbrev reported : Key → Vars → Tuple → ℤ → ℤ
  reported k m t received =
      if eqb_ℤ (count_up (greylist_tuple_counted m "greylist_passed_counted" k.envrcpt).0 t.passed)
        (pos 1)
      then to_int (received -ℤ t.created)
      else pos 0

  -- A call that finds the delay and the attempts behind it lets the message through.
  decided-passes :
      (k : Key) (s : State env) (t : Tuple) (received : ℤ)
      → IsReliable
      → has_waited t received ≡ true
      → (recipient_decided env k t received s).0 ≡ ok (false, reported k s.mailspec t received)
  unfolding recipient_decided recipient_passed tuple_counted
  decided-passes k s t received h waited =
      let (c, m) = greylist_tuple_counted s.mailspec "greylist_passed_counted" k.envrcpt in
      rw (waited, recipient_decided)
        (counted-passes k (record s { mailspec = m }) t received (to_int (received -ℤ t.created)) c
          h)

  decided-defers :
      (k : Key) (s : State env) (t : Tuple) (received : ℤ)
      → IsReliable
      → has_waited t received ≡ false
      → (recipient_decided env k t received s).0 ≡ ok (true, pos 0)
  unfolding recipient_decided recipient_deferred
  decided-defers k s t received h early =
      rw (early, recipient_decided) (rw (h.set_done s.db k (keep_waiting t received), db_set))

  -- The record as the attempt counts it
  abbrev pub attempted : Key → Vars → Tuple → Tuple
  attempted k m t = record t {
    connections =
        count_up (greylist_tuple_counted m "greylist_connection_counted" k.envrcpt).0 t.connections;
  }

  -- A result that lets the message through, or defers it
  abbrev pub Decides : Bool → Result (Bool × ℤ) → Type 0
  Decides true r = (d : ℤ) × (r ≡ ok (false, d))
  Decides false r = r ≡ ok (true, pos 0)

  -- Under a rule that requests nothing, and a database that accepts every write, an attempt that finds
  -- a current record is let through exactly if both its delay and its attempts are behind it.
  pub greylist_recipient-Decides :
      (gl : Greylist Exp) (k : Key) (received : ℤ) (s : State env) (t : Tuple)
      → IsReliable
      → is_empty gl ≡ true
      → dbt.get s.db k ≡ some (some t)
      → ltb_ℤ t.expire received ≡ false
      → Decides
          (has_waited (attempted k s.mailspec t) received)
          (greylist_recipient env gl k received s).0
  greylist_recipient-Decides gl k received s t rel empty found alive =
      let run = recipient-empty k s gl received t empty found alive in
      let m' : Vars =
        (greylist_tuple_counted s.mailspec "greylist_connection_counted" k.envrcpt).1 in
      let t' : Tuple = attempted k s.mailspec t in
      elim (Bool-cases (has_waited t' received)) [
        | inl waited ↦ rw waited (
          reported k m' t' received,
          rw run (decided-passes k (record s { mailspec = m' }) t' received rel waited),
        )
        | inr early ↦
            rw early (rw run (decided-defers k (record s { mailspec = m' }) t' received rel early))
      ]

  admitted_has_waited :
      (t : Tuple) (now received : ℤ)
      → now <ℤ received
      → FitsInt (received -ℤ (now -ℤ t.delay))
      → has_waited (record (admit t now) { connections = t.attempts +ℤ pos 1 }) received ≡ true
  admitted_has_waited t now received later fits = rw (to_int-fits _ fits) (
      rw (lt→ltb_ℤ t.delay (received -ℤ (now -ℤ t.delay)) (omega int_laws))
        (lt→ltb_ℤ t.attempts (t.attempts +ℤ pos 1) (omega int_laws)))

  -- The state in which the next attempt meets the record, with the mailspec of its message.
  abbrev pub next_attempt : Key → ℤ → Vars → State env → State env
  next_attempt k now m s = record ((greylist_pass env k now s).1) { mailspec = m }

  module _ (rel : IsReliable) (gl : Greylist Exp) (k : Key) (s : State env) (t : Tuple)
      (found : dbt.get s.db k ≡ some (some t)) (waiting : ltb_ℤ (pos 0) t.passed ≡ false)
      (now received : ℤ) (m : Vars) where
    -- After `greylist_pass` the next attempt is let through, if it comes after the second of the call and
    -- within the visa, in a message that has not counted the recipient yet, and the database accepts
    -- every write.
    pub greylist_pass-recipient :
        is_empty gl ≡ true
        → now <ℤ received
        → received ≤ℤ now +ℤ t.visa
        → FitsInt (received -ℤ (now -ℤ t.delay))
        → (greylist_tuple_counted m "greylist_connection_counted" k.envrcpt).0 ≡ appended
        → (d : ℤ) × ((greylist_recipient env gl k received (next_attempt k now m s)).0
            ≡ ok (false, d))
    greylist_pass-recipient empty later valid fits new =
        let m' : Vars = (greylist_tuple_counted m "greylist_connection_counted" k.envrcpt).1 in
        let db' : dbt.Db = (dbt.set s.db k (admit t now)).1 in
        let t' : Tuple = record (admit t now) { connections = t.attempts +ℤ pos 1 } in
        let stored : dbt.get db' k ≡ some (some (admit t now)) =
          rw (
            dbt.get-set s.db k k (admit t now) (rel.set_done s.db k (admit t now)),
            key_eq_refl k,
          ) in
        let alive : ltb_ℤ (admit t now).expire received ≡ false =
          le→ltb_ℤ (now +ℤ t.visa) received valid in
        let passes =
          decided-passes k (record { mailspec = m'; db = db' }) t' received rel
            (admitted_has_waited t now received later fits) in
        let run =
          recipient-empty k (record { mailspec = m; db = db' }) gl received (admit t now) empty
            stored alive in
        (
          reported k m' t' received,
          rw (pass-admits k s now t rel found waiting) (rw run (rw new passes)),
        )
