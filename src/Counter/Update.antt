-- ===== src/Counter/Update.antt =====
-- What the counters hold after a message.
use mopher.Prelude.{
  String, Bool, true, false, ◌≡◌, refl, Option, none, some, List, ◌∙◌, if◌then◌else◌,
}
use mopher.Prelude.Int.{ℤ, pos, ◌+ℤ◌, eqb_ℤ, ltb_ℤ, to_int}
use mopher.Var.{Vars, int}
use mopher.Vtable.{vtable_get, vtable_is_null}
use mopher.Exec.{Result, ok, Exec, ◌>>=◌, continue}
use mopher.Stage.{Stage}
use mopher.Action.{ActionType}
use mopher.Counter.Scheme.{
  Counter, relay, origin, domain, penpal, Tuple, keys, key_eq, Driver, Limits, minus_one,
  vlist_record_keys_missing, lookup_key, new_tuple, counted, renew,
}
use mopher.Counter.{
  dbt_db_get_from_table, saved, stored_key, Databases, db_of, set_db, save_new, counter_add_key,
  counter_add_relay, counter_add_origin, counter_add_domain, counter_add_penpal, count_one_more,
  counter_update_record, in_table, unless_failed, is_counted, counter_update,
}
use mopher.Counter.Found.{keys_missing-found, dereference-found}

renew_lem :
    (limits : Limits) (received : ℤ) (t : Tuple) {u e n : ℤ} (updated expire count : Option ℤ)
    → updated ≡ some u
    → expire ≡ some e
    → count ≡ some n
    → renew limits (int (some received)) updated expire count t
      ≡ ok (some (n +ℤ pos 1, counted limits received t n))
renew_lem limits received t updated expire count hu he hn = rw (hu, he, hn) (unfold renew in refl)

module _ (driver : Driver) where
  open driver use {Db, get, set}

  saved_lem : (n : ℤ) (p : Bool × Db) → p.0 ≡ true → saved driver n p ≡ (ok n, p.1)
  saved_lem n (true, db) h = refl
  saved_lem n (false, db) h = cc

  module _ (limits : Limits) (m : Vars) (received : ℤ)
      (at : vtable_get m "received" ≡ some (int (some received))) where
    -- The first message: it is counted, and the record expires after the short time.
    abbrev pub IsNew : Tuple → Type 0
    IsNew t =
        (t.created ≡ some received)
        × (t.updated ≡ some received)
        × (t.expire ≡ some (received +ℤ limits.cf_counter_expire_low))
        × (t.count ≡ some (pos 1))

    -- One more than `n` messages: only a record above the threshold is kept for the long time.
    abbrev pub CountsOneMore : Tuple → ℤ → Tuple → Type 0
    CountsOneMore t n t' =
        (t'.created ≡ t.created)
        × (t'.updated ≡ some received)
        × (t'.expire
            ≡ some (
                received
                +ℤ (if ltb_ℤ limits.cf_counter_threshold (n +ℤ pos 1)
                    then limits.cf_counter_expire_high
                    else limits.cf_counter_expire_low)))
        × (t'.count ≡ some (n +ℤ pos 1))

    -- What the message leaves in a table: nothing, where a name of the key is not in the mailspec; else a new
    -- record, or the record that there was, with one more message. The other records stay.
    pub data Recorded (c : Counter) (db db' : Db) : Type 0 where
      kept : vlist_record_keys_missing (keys c) m ≡ true → db' ≡ db → Recorded c db db'
      first_seen :
          (key : List String) (t' : Tuple)
          → lookup_key (keys c) m ≡ ok (some key)
          → get db key ≡ some none
          → IsNew t'
          → ((j : List String) → get db' j ≡ (if key_eq key j then some (some t') else get db j))
          → Recorded c db db'
      renewed :
          (key : List String) (t t' : Tuple) (n : ℤ)
          → lookup_key (keys c) m ≡ ok (some key)
          → get db key ≡ some (some t)
          → t.count ≡ some n
          → CountsOneMore t n t'
          → ((j : List String) → get db' j ≡ (if key_eq key j then some (some t') else get db j))
          → Recorded c db db'

    -- The driver answers, and a record that it has is complete.
    pub data Ready (c : Counter) (db : Db) : Type 0 where
      absent : vlist_record_keys_missing (keys c) m ≡ true → Ready c db
      unseen :
          (key : List String)
          → lookup_key (keys c) m ≡ ok (some key)
          → get db key ≡ some none
          → (set db key (new_tuple limits received)).0 ≡ true
          → Ready c db
      seen :
          (key : List String) (t : Tuple) (u e n : ℤ)
          → lookup_key (keys c) m ≡ ok (some key)
          → get db key ≡ some (some t)
          → t.updated ≡ some u
          → t.expire ≡ some e
          → t.count ≡ some n
          → eqb_ℤ (to_int (n +ℤ pos 1)) minus_one ≡ false
          → (set db key (counted limits received t n)).0 ≡ true
          → Ready c db

    -- A call that did not return -1
    abbrev Succeeds : Counter → Db → Result ℤ × Db → Type 0
    Succeeds c db p = ((n : ℤ) × ((p.0 ≡ ok n) × (eqb_ℤ n minus_one ≡ false))) × Recorded c db p.1

    save_new_lem :
        (ks : List String) (db : Db) (key : List String)
        → lookup_key ks m ≡ ok (some key)
        → (set db key (new_tuple limits received)).0 ≡ true
        → save_new driver limits m ks db ≡ (ok (pos 0), (set db key (new_tuple limits received)).1)
    unfolding save_new
    save_new_lem ks db key h stored = rw (save_new, h, at) (saved_lem (pos 0) _ stored)

    count_one_more_lem :
        (db : Db) (key : List String) (t : Tuple) (u e n : ℤ)
        → t.updated ≡ some u
        → t.expire ≡ some e
        → t.count ≡ some n
        → (set db key (counted limits received t n)).0 ≡ true
        → count_one_more driver limits m key t db
          ≡ (ok (to_int (n +ℤ pos 1)), (set db key (counted limits received t n)).1)
    unfolding count_one_more
    count_one_more_lem db key t u e n hu he hn stored =
        rw (count_one_more, at, renew_lem limits received t t.updated t.expire t.count hu he hn)
          (saved_lem (to_int (n +ℤ pos 1)) _ stored)

    -- The function that adds a record to the table of a counter
    abbrev adds : Counter → Exec Db ℤ
    adds relay = counter_add_relay driver limits m
    adds origin = counter_add_origin driver limits m
    adds domain = counter_add_domain driver limits m
    adds penpal = counter_add_penpal driver limits m

    adds_lem :
        (c : Counter) (db : Db) (key : List String)
        → lookup_key (keys c) m ≡ ok (some key)
        → adds c db ≡ save_new driver limits m (keys c) db
    unfolding counter_add_relay counter_add_origin counter_add_domain counter_add_penpal
        counter_add_key
    adds_lem relay db key h = rw (dereference-found (keys relay) m h at)
    adds_lem origin db key h = rw (dereference-found (keys origin) m h at)
    adds_lem domain db key h = rw (dereference-found (keys domain) m h at)
    adds_lem penpal db key h = rw (dereference-found (keys penpal) m h at)

    update_record-Succeeds :
        (c : Counter) (db : Db)
        → Ready c db
        → Succeeds c db (counter_update_record driver limits m c (adds c) db)
    unfolding counter_update_record dbt_db_get_from_table
    update_record-Succeeds c db (absent h) = rw h ((pos 0, (refl, refl)), kept h refl)
    update_record-Succeeds c db (unseen key h g stored) =
        rw
          (
            keys_missing-found (keys c) m h,
            h,
            g,
            adds_lem c db key h,
            save_new_lem (keys c) db key h stored,
          )
          (
            (pos 0, (refl, refl)),
            first_seen key _ h g (refl, refl, refl, refl) (λ j. driver.get-set db key j _ stored),
          )
    update_record-Succeeds c db (seen key t u e n h g hu he hn fits stored) =
        rw
          (
            keys_missing-found (keys c) m h,
            h,
            g,
            stored_key,
            h,
            count_one_more_lem db key t u e n hu he hn stored,
          )
          (
            (to_int (n +ℤ pos 1), (refl, fits)),
            renewed key t _ n h g hn (refl, refl, refl, refl)
                (λ j. driver.get-set db key j _ stored),
          )

    unless_failed-next :
        (c : Counter) (f : Exec Db ℤ) (rest : Exec (Databases driver) ℤ) (s : Databases driver)
        {n : ℤ}
        → (f (db_of driver c s)).0 ≡ ok n
        → eqb_ℤ n minus_one ≡ false
        → (in_table driver limits m c f >>= unless_failed driver limits m rest) s
          ≡ rest (set_db driver c s (f (db_of driver c s)).1)
    unless_failed-next c f rest s h e = rw (◌>>=◌, in_table, h, continue, unless_failed, e)

    abbrev done : Counter → Databases driver → Db
    done c s = (counter_update_record driver limits m c (adds c) (db_of driver c s)).1

    abbrev all_done : Databases driver → Databases driver
    all_done s = record {
      counter_relay = done relay s;
      counter_origin = done origin s;
      counter_domain = done domain s;
      counter_penpal = done penpal s;
    }

    all_done-Recorded :
        (s : Databases driver)
        → ((c : Counter) → Ready c (db_of driver c s))
        → (c : Counter) → Recorded c (db_of driver c s) (db_of driver c (all_done s))
    all_done-Recorded s ready relay = (update_record-Succeeds relay s.counter_relay (ready relay)).1
    all_done-Recorded s ready origin =
        (update_record-Succeeds origin s.counter_origin (ready origin)).1
    all_done-Recorded s ready domain =
        (update_record-Succeeds domain s.counter_domain (ready domain)).1
    all_done-Recorded s ready penpal =
        (update_record-Succeeds penpal s.counter_penpal (ready penpal)).1

    -- One of the four calls, and what comes after it
    abbrev then_next : Counter → Exec (Databases driver) ℤ → Exec (Databases driver) ℤ
    then_next c rest =
        in_table driver limits m c (counter_update_record driver limits m c (adds c))
        >>= unless_failed driver limits m rest

    then_next_lem :
        (c : Counter) (rest : Exec (Databases driver) ℤ) (s : Databases driver)
        → Ready c (db_of driver c s)
        → then_next c rest s ≡ rest (set_db driver c s (done c s))
    then_next_lem c rest s ready =
        let ((n, (e, f)), r) = update_record-Succeeds c (db_of driver c s) ready in
        unless_failed-next c (counter_update_record driver limits m c (adds c)) rest s e f

    -- For an action and a stage that count, a mailspec in which received is a number, a client with an
    -- address, and, for each of the four tables, one of three cases: a name of the key is missing in
    -- the mailspec; or the driver finds no record for the key and stores the first one; or it finds a
    -- record whose updated, expire and count are not NULL, the next count as an int is not -1, and it
    -- stores the record: the callback returns 0, and the table is in the first case unchanged, in the
    -- second has under the key a record that counts one message and expires after the short time, and
    -- in the third the earlier record with one message more, whose expiry is the long one if and only
    -- if the new count is above the threshold. Other records stay.
    pub counter_update-Recorded :
        (stage : Stage) (action : ActionType) (s : Databases driver)
        → is_counted driver limits m stage action ≡ true
        → vtable_is_null m "hostaddr_str" ≡ false
        → ((c : Counter) → Ready c (db_of driver c s))
        → (s' : Databases driver) × ((counter_update driver limits m stage action s
              ≡ (ok (pos 0), s'))
            × ((c : Counter) → Recorded c (db_of driver c s) (db_of driver c s')))
    unfolding counter_update
    counter_update-Recorded stage action s h known ready = (
      all_done s,
      (
        rw (h, known)
            (then_next_lem relay _ s (ready relay)
              ∙ then_next_lem origin _ _ (ready origin)
              ∙ then_next_lem domain _ _ (ready domain)
              ∙ then_next_lem penpal _ _ (ready penpal)),
        all_done-Recorded s ready,
      ),
    )
