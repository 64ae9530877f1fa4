-- ===== src/Regdom.antt =====
-- The registered domain of a name (`regdom` of src/regdom.c): the labels in front of the rules are walked
-- from the left. A pointer into the name is the text from there on. The rules are a parameter, as they are
-- read from a file.
pub mod Suffix
mod Tests
use Prim.Native.Char.{code}
use mopher.Prelude.{ℕ, zero, suc, String, Bool, Option, none, some, ◌==◌, if◌then◌else◌}

-- `regdom_rule_t`, found by its name
pub record Rule : Type 0 where
  pub r_exception : Bool
  pub r_wildcard : Bool

abbrev pub dot : ℕ
dot = b'.'

unfoldable pub skip_dots : String → String
skip_dots String.[] = ""
skip_dots (String.◌∷◌ c s) =
    let rest = skip_dots s in if code c == dot then rest else String.◌∷◌ c s

-- `strchr(name, '.')`
unfoldable pub from_dot : String → Option String
from_dot String.[] = none
from_dot (String.◌∷◌ c s) =
    let rest = from_dot s in if code c == dot then some (String.◌∷◌ c s) else rest

-- What follows the loop: a name without a dot has no registered domain of its own.
unfoldable pub last_label : Option String → Option String → Option String
unfolding from_dot
last_label prev none = none
last_label prev (some curr) = elim (from_dot curr) [ none ↦ prev | some rest ↦ some curr ]

abbrev pub by_rule : Rule → Option String → Option String → String → Option String
by_rule r prev curr next =
    if r.r_exception then some next else if r.r_wildcard then prev else last_label prev curr

module _ (sht_lookup : String → Option Rule) where
  -- The loop, with fuel for a number of labels: the outer `none` is no fuel, the inner one NULL.
  unfoldable pub regdom_loop : ℕ → Option String → Option String → String → Option (Option String)
  unfolding skip_dots from_dot last_label
  regdom_loop zero prev curr next = none
  regdom_loop (suc fuel) prev curr next = elim (sht_lookup (skip_dots next)) [
    | some r ↦ some (by_rule r prev curr (skip_dots next))
    | none ↦ elim (from_dot (skip_dots next)) [
      | none ↦ some (last_label curr (some (skip_dots next)))
      | some rest ↦ regdom_loop fuel curr (some (skip_dots next)) rest
    ]
  ]

  unfoldable pub regdom : ℕ → String → Option (Option String)
  unfolding regdom_loop
  regdom fuel String.[] = regdom_loop fuel none none ""
  regdom fuel (String.◌∷◌ c s) =
      if code c == dot then some none else regdom_loop fuel none none (String.◌∷◌ c s)
