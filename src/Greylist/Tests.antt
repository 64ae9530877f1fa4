-- ===== src/Greylist/Tests.antt =====
-- The greylist on a database that is an association list, with constants for expressions: the
-- theorems at concrete records, and a conversation with an origin.
use mopher.Prelude.{◌≡◌, refl, true, false, Option, none, some, List, [], ◌∷◌, arith, if◌then◌else◌}
use mopher.Prelude.Int.{ℤ, pos, ◌+ℤ◌, ◌-ℤ◌, to_int}
use mopher.Var.{Vars, var, nil, cons, int, string, list}
use mopher.Exec.{ok}
use mopher.Exec.Post.{Post}
use mopher.Dbt.{Key, Dbt, key_eq}
use mopher.Greylist.{
  Env, Tuple, Greylist, State, greylist_create, greylist_delay, greylist_attempts,
  greylist_tuple_counted, greylist_recipient, greylist_pass, has_waited,
}
use mopher.Greylist.Handler.{greylist}
use mopher.Greylist.Schedule.{TableIsScheduled, here, next, recipient, Reach-TableIsScheduled}
use mopher.Greylist.Pass.{
  IsReliable, Decides, attempted, next_attempt, greylist_recipient-Decides, greylist_pass-recipient,
}

abbrev Records : Type 0
Records = List (Key × Tuple)

find : Records → Key → Option Tuple
find [] k = none
find ((j, t) ∷ rest) k = if key_eq j k then some t else find rest k

find-cons :
    (db : Records) (k j : Key) (t : Tuple)
    → some (find ((k, t) ∷ db) j) ≡ (if key_eq k j then some (some t) else some (find db j))
unfolding find
find-cons db k j t = ground arith

-- A database that is a list of records, the newest first.
abbrev records : Dbt Tuple
records = record {
  Db = Records;
  get = λ db k. some (find db k);
  set = λ db k t. (true, (k, t) ∷ db);
  get-set = λ db k j t _. find-cons db k j t;
}

abbrev env : Env
env = record {
  Exp = ℤ;
  exp_eval = λ e m. (ok (some (var none (int (some e)))), m);
  cf_greylist_deadline = pos 86400;
  cf_greylist_visa = pos 604800;
  dbt = records;
}

abbrev alice : Key
alice = record { origin = "example.org"; envfrom = "a@example.org"; envrcpt = "b@example.net" }

abbrev start : State env
start = record { mailspec = nil; db = [] }

-- greylist delay 300 attempts 1
rule : Greylist ℤ
rule = greylist_attempts (greylist_delay greylist_create (some (pos 300))) (some (pos 1))

abbrev listed : State env
listed = (greylist_recipient env rule alice (pos 1000) start).1

-- What a run of the model computes with
program : Unit {0}
unfolding greylist_create greylist_delay greylist_attempts greylist_recipient greylist_pass rule
    greylist_tuple_counted ◌+ℤ◌ ◌-ℤ◌ to_int find key_eq greylist
program = tt

first_contact : greylist_recipient env rule alice (pos 1000) start ≡ (ok (true, pos 0), listed)
unfolding program
first_contact = refl

abbrev stored : Tuple
stored = record {
  created = pos 1000;
  updated = pos 1000;
  expire = pos 87400;
  connections = pos 1;
  deadline = pos 86400;
  delay = pos 300;
  attempts = pos 1;
  visa = pos 604800;
  passed = pos 0;
}

-- A second attempt is early after 100 seconds, and let through after 400.
attempts_run :
    ((greylist_recipient env greylist_create alice (pos 1100) listed).0 ≡ ok (true, pos 0))
    × ((greylist_recipient env greylist_create alice (pos 1400) listed).0 ≡ ok (false, pos 400))
unfolding program
attempts_run = (refl, refl)

empty_table : TableIsScheduled env start
unfolding find
empty_table = record { at_key = λ k t e. cc }

Reach-TableIsScheduled_example : TableIsScheduled env listed
unfolding program
Reach-TableIsScheduled_example =
    Reach-TableIsScheduled env empty_table
      (next here (recipient rule alice (pos 1000) (true, pos 0) listed refl))

reliable : IsReliable env
reliable = record { set_done = λ db k t. refl }

alice-Decides :
    Decides env
      (has_waited (attempted env alice nil stored) (pos 1400))
      (greylist_recipient env greylist_create alice (pos 1400) listed).0
unfolding program
alice-Decides =
    greylist_recipient-Decides env greylist_create alice (pos 1400) listed stored reliable refl refl
      refl

greylist_pass-recipient_example :
    (d : ℤ) × ((greylist_recipient env greylist_create alice
        (pos 1011)
        (next_attempt env alice (pos 1010) nil listed)).0
      ≡ ok (false, d))
unfolding program
greylist_pass-recipient_example =
    greylist_pass-recipient env reliable greylist_create alice listed stored refl refl (pos 1010)
      (pos 1011) nil refl (omega arith) (omega arith) (omega arith) refl

abbrev rcpts : Vars
rcpts = cons (var none (string (some "b@example.net"))) nil

abbrev mail : Vars
mail = cons (var (some "origin") (string (some "example.org"))) (
    cons (var (some "envfrom_addr") (string (some "a@example.org"))) (
      cons (var (some "received") (int (some (pos 1400))))
        (cons (var (some "recipient_list") (list rcpts)) nil)))

abbrev in_data : State env
in_data = record listed { mailspec = mail }
