-- ===== src/Greylist/Record.antt =====
-- The records of the greylist and the properties that a rule requests (src/greylist.c,
-- src/include/greylist.h), with the functions that do not touch the database.
use mopher.Prelude.{
  String, Bool, true, false, not, ◌&&◌, ◌||◌, Option, none, some, str_eq, if◌then◌else◌,
}
use mopher.Prelude.Int.{ℤ, pos, ◌+ℤ◌, ◌-ℤ◌, ltb_ℤ, eqb_ℤ, to_int}
use mopher.Var.{Var, Vars, var, nil, cons, string, v_data, is_null, as_int}
use mopher.Vtable.{vtable_get, vtable_list_append_new}
use mopher.Var.{as_list}
use mopher.Exec.{Exec, Result, ok, fail, error}
use mopher.Dbt.{Dbt}

-- The value part of a record
pub record Tuple : Type 0 where
  pub created : ℤ
  pub updated : ℤ
  pub expire : ℤ
  pub connections : ℤ
  pub deadline : ℤ
  pub delay : ℤ
  pub attempts : ℤ
  pub visa : ℤ
  pub passed : ℤ

pub record Env : Type 1 where
  pub Exp : Type 0
  pub exp_eval : Exp → Exec Vars (Option Var)
  pub cf_greylist_deadline : ℤ
  pub cf_greylist_visa : ℤ
  pub dbt : Dbt Tuple

-- `gl_flags`, bit by bit
pub record Flags : Type 0 where
  pub deadline : Bool
  pub delay : Bool
  pub attempts : Bool
  pub visa : Bool

pub record Greylist (Exp : Type 0) : Type 0 where
  pub flags : Flags
  pub deadline : Option Exp
  pub delay : Option Exp
  pub attempts : Option Exp
  pub visa : Option Exp

abbrev no_flags : Flags
no_flags = record { deadline = false; delay = false; attempts = false; visa = false }

module _ {Exp : Type 0} where
  unfoldable pub greylist_create : Greylist Exp
  greylist_create = record {
    flags = no_flags;
    deadline = none;
    delay = none;
    attempts = none;
    visa = none;
  }

  unfoldable pub greylist_deadline : Greylist Exp → Option Exp → Greylist Exp
  greylist_deadline gl e = record gl { flags = record (gl.flags) { deadline = true }; deadline = e }

  unfoldable pub greylist_delay : Greylist Exp → Option Exp → Greylist Exp
  greylist_delay gl e = record gl { flags = record (gl.flags) { delay = true }; delay = e }

  unfoldable pub greylist_attempts : Greylist Exp → Option Exp → Greylist Exp
  greylist_attempts gl e = record gl { flags = record (gl.flags) { attempts = true }; attempts = e }

  unfoldable pub greylist_visa : Greylist Exp → Option Exp → Greylist Exp
  greylist_visa gl e = record gl { flags = record (gl.flags) { visa = true }; visa = e }

  -- `gl->gl_flags == GLF_NULL`
  abbrev pub is_empty : Greylist Exp → Bool
  is_empty gl = not (gl.flags.deadline || (gl.flags.delay || (gl.flags.attempts || gl.flags.visa)))

-- The result of `greylist_tuple_counted`: 1, 0 and -1
pub data Counted : Type 0 where
  counted appended failed : Counted

-- The walk over the list: whether the needle is in it, and `none` at an item that is no string.
pub is_listed : Vars → String → Option Bool
is_listed nil needle = some false
is_listed (cons (var n (string (some s))) vs) needle =
    if str_eq needle s then some true else is_listed vs needle
is_listed (cons (var n d) vs) needle = none

-- `haystack` is read from the mailspec, and the needle is appended where it is not in it. Items
-- without data, which nothing appends, count as items of another type.
unfoldable pub greylist_tuple_counted : Vars → String → String → Counted × Vars
unfolding is_listed vtable_get vtable_list_append_new
greylist_tuple_counted m haystack needle =
    let appending : Counted × Vars =
      elim (vtable_list_append_new m haystack (string (some needle))) [
        | none ↦ (failed, m)
        | some m' ↦ (appended, m')
      ] in
    elim (vtable_get m haystack) [
      | none ↦ appending
      | some d ↦ elim (as_list d) [
        | none ↦ (failed, m)
        | some vs ↦ elim (is_listed vs needle) [
          | none ↦ (failed, m)
          | some true ↦ (counted, m)
          | some false ↦ appending
        ]
      ]
    ]

-- `if (!greylist_tuple_counted(...)) ++n`
abbrev pub count_up : Counted → ℤ → ℤ
count_up appended n = n +ℤ pos 1
count_up _ n = n

-- What `greylist_eval` accepts: a `VT_INT` that has data.
abbrev pub int_result : Option Var → Result ℤ
int_result none = fail error
int_result (some v) =
    if is_null (v_data v)
    then fail error
    else elim (as_int (v_data v)) [ none ↦ fail error | some i ↦ ok i ]

-- The same for an evaluation, which may go on where C has no defined behaviour
abbrev pub eval_int : Result (Option Var) → Result ℤ
eval_int (ok v) = int_result v
eval_int (fail e) = fail e

-- `greylist_add` builds its record before `greylist_properties`, and completes it after.
abbrev pub fresh : ℤ → Tuple
fresh received = record {
  created = received;
  updated = received;
  expire = pos 0;
  connections = pos 1;
  deadline = pos 0;
  delay = pos 0;
  attempts = pos 0;
  visa = pos 0;
  passed = pos 0;
}

abbrev pub or_default : ℤ → ℤ → ℤ
or_default n default = if eqb_ℤ n (pos 0) then default else n

-- "Greylisting passed (delay and attempts)". `passed_delay` is an `int`.
abbrev pub has_waited : Tuple → ℤ → Bool
has_waited t received =
    ltb_ℤ t.delay (to_int (received -ℤ t.created)) && ltb_ℤ t.attempts t.connections

-- The records that the two outcomes store
abbrev pub let_pass : Tuple → ℤ → Counted → Tuple
let_pass t received c = record t {
  expire = received +ℤ t.visa;
  passed = count_up c t.passed;
  updated = received;
}

abbrev pub keep_waiting : Tuple → ℤ → Tuple
keep_waiting t received = record t {
  expire = t.created +ℤ t.deadline;
  passed = pos 0;
  updated = received;
}

abbrev pub admit : Tuple → ℤ → Tuple
admit t now = record t {
  created = now -ℤ t.delay;
  connections = t.attempts;
  expire = now +ℤ t.visa;
  updated = now;
}
