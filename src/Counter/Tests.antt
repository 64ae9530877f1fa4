-- ===== src/Counter/Tests.antt =====
-- A message in the recipient's stage of which the mailspec has an address, a sender and a recipient, on
-- tables that are functions.
use mopher.Prelude.{
  String, true, false, ◌≡◌, refl, Option, none, some, List, [], ◌∷◌, if◌then◌else◌, inl, inr,
  Bool-cases,
}
use mopher.Prelude.Int.{pos, ◌+ℤ◌, to_int}
use mopher.Var.{Vars, var, nil, cons, int, string}
use mopher.Vtable.{vtable_get, vtable_is_null}
use mopher.Exec.{ok}
use mopher.Stage.{envrcpt, eom, is_envrcpt}
use mopher.Action.{acl_accept, acl_continue}
use mopher.Counter.Scheme.{
  Counter, relay, origin, domain, penpal, Tuple, key_eq, Driver, Limits, lookup_key,
  vlist_record_keys_missing,
}
use mopher.Counter.{db_of, set_db, Databases, counter_update, counter_lookup}
use mopher.Counter.Update.{Ready, absent, unseen, seen, Recorded, counter_update-Recorded}
use mopher.Counter.Lookup.{Loaded, counter_lookup-Loaded, counter_lookup-not_nulled}

abbrev Store : Type 0
Store = List String → Option Tuple

store-get :
    (db : Store) (k j : List String) (t : Tuple)
    → true ≡ true
    → ◌≡◌ {A = Option (Option Tuple)}
        (some (if key_eq k j then some t else db j))
        (if key_eq k j then some (some t) else some (db j))
store-get db k j t h = elim (Bool-cases (key_eq k j)) [ inl e ↦ rw e | inr e ↦ rw e ]

abbrev driver : Driver
driver = record {
  Db = Store;
  get = λ db k. some (db k);
  set = λ db k t. (true, λ j. if key_eq k j then some t else db j);
  get-set = store-get;
}

abbrev limits : Limits
limits = record {
  cf_counter_expire_low = pos 10;
  cf_counter_expire_high = pos 100;
  cf_counter_threshold = pos 2;
}

-- The relay has sent two messages. The domain is not in the mailspec.
abbrev before : Store
before k =
    if key_eq k ("10.0.0.1" ∷ [])
    then some (record {
      created = some (pos 1);
      updated = some (pos 3);
      expire = some (pos 13);
      count = some (pos 2);
    })
    else none

abbrev databases : Databases driver
databases = record {
  counter_relay = before;
  counter_origin = λ k. none;
  counter_domain = λ k. none;
  counter_penpal = λ k. none;
}

abbrev mailspec : Vars
mailspec = cons (var (some "hostaddr_str") (string (some "10.0.0.1"))) (
    cons (var (some "origin") (string (some "example.org"))) (
      cons (var (some "envfrom_addr") (string (some "a@example.org"))) (
        cons (var (some "envrcpt_addr") (string (some "b@example.com"))) (
          cons (var (some "received") (int (some (pos 50))))
            (cons (var (some "recipients") (int (some (pos 2)))) nil)))))

received_fifty : vtable_get mailspec "received" ≡ some (int (some (pos 50)))
unfolding vtable_get
received_fifty = refl

sample-Ready :
    (c : Counter)
    → Ready driver limits mailspec (pos 50) received_fifty c (db_of driver c databases)
unfolding vlist_record_keys_missing lookup_key ◌+ℤ◌ to_int key_eq
sample-Ready relay =
    seen ("10.0.0.1" ∷ [])
      (record {
        created = some (pos 1);
        updated = some (pos 3);
        expire = some (pos 13);
        count = some (pos 2);
      })
      (pos 3) (pos 13) (pos 2) refl refl refl refl refl refl refl
sample-Ready origin = unseen ("example.org" ∷ []) refl refl refl
sample-Ready domain = absent refl
sample-Ready penpal = unseen ("example.org" ∷ "a@example.org" ∷ "b@example.com" ∷ []) refl refl refl

known : vtable_is_null mailspec "hostaddr_str" ≡ false
unfolding vtable_is_null
known = refl

counter_update-Recorded_example :
    (s' : Databases driver) × ((counter_update driver limits mailspec envrcpt acl_accept databases
        ≡ (ok (pos 0), s'))
      × ((c : Counter)
          → Recorded driver limits mailspec
              (pos 50)
              received_fifty
              c
              (db_of driver c databases)
              (db_of driver c s')))
counter_update-Recorded_example =
    counter_update-Recorded driver limits mailspec (pos 50) received_fifty envrcpt acl_accept
      databases refl known sample-Ready

abbrev recorded : Databases driver
unfolding counter_update
recorded = (counter_update driver limits mailspec envrcpt acl_accept databases).1

-- The third_message message of the relay is over the threshold.
third_message :
    recorded.counter_relay ("10.0.0.1" ∷ [])
    ≡ some (record {
      created = some (pos 1);
      updated = some (pos 50);
      expire = some (pos 150);
      count = some (pos 3);
    })
unfolding recorded counter_update ◌+ℤ◌ key_eq
third_message = refl

unchanged : recorded.counter_domain ("example.org" ∷ "example.com" ∷ []) ≡ none
unfolding recorded counter_update key_eq ◌+ℤ◌
unchanged = refl

-- A message that goes on to the next stage is not counted yet.
not_yet : (counter_update driver limits mailspec envrcpt acl_continue databases).1 ≡ databases
unfolding counter_update
not_yet = refl

-- The sender has sent seven messages to the recipient.
abbrev pair_seen : Databases driver
pair_seen = set_db driver penpal databases (λ k. some (record {
  created = some (pos 1);
  updated = some (pos 3);
  expire = some (pos 13);
  count = some (pos 7);
}))

two_recipients : vtable_get mailspec "recipients" ≡ some (int (some (pos 2)))
unfolding vtable_get
two_recipients = refl

pair_key :
    lookup_key ("origin" ∷ "envfrom_addr" ∷ "envrcpt_addr" ∷ []) mailspec
    ≡ ok (some ("example.org" ∷ "a@example.org" ∷ "b@example.com" ∷ []))
unfolding lookup_key
pair_key = refl

not_set : vtable_get mailspec "counter_penpal" ≡ none
unfolding vtable_get
not_set = refl

counter_lookup-Loaded_example :
    Loaded penpal
      (some (record {
        created = some (pos 1);
        updated = some (pos 3);
        expire = some (pos 13);
        count = some (pos 7);
      }))
      mailspec
      (counter_lookup driver pair_seen envrcpt "counter_penpal" mailspec)
unfolding is_envrcpt
counter_lookup-Loaded_example =
    counter_lookup-Loaded driver penpal pair_seen envrcpt mailspec
      ("example.org" ∷ "a@example.org" ∷ "b@example.com" ∷ []) _ known (inl refl) pair_key refl
      not_set

counter_lookup-not_nulled_example :
    vtable_get (counter_lookup driver pair_seen eom "counter_penpal" mailspec).1 "counter_penpal"
    ≡ some (int (some (pos 7)))
unfolding is_envrcpt
counter_lookup-not_nulled_example =
    counter_lookup-not_nulled driver pair_seen eom mailspec
      ("example.org" ∷ "a@example.org" ∷ "b@example.com" ∷ []) _ (pos 2) (pos 7) known refl
      two_recipients refl pair_key refl refl not_set
