-- ===== src/Regdom/Suffix.antt =====
-- What the walk over the labels returns.
use Prim.Native.Char.{Char, code}
use mopher.Prelude.{
  ℕ, zero, suc, ◌≤◌, ◌<◌, ◌≡◌, refl, String, Bool, true, false, Option, none, some, ◌==◌,
  if◌then◌else◌, arith, Bool-cases, Option-cases, inl, inr, sym,
}
use mopher.Regdom.{Rule, dot, skip_dots, from_dot, last_label, by_rule, regdom_loop, regdom}

pub data IsSuffix (s : String) : String → Type 0 where
  whole : IsSuffix s s
  later : {c : Char} {t : String} → IsSuffix s t → IsSuffix s (String.◌∷◌ c t)

IsSuffix-trans : {s t u : String} → IsSuffix s t → IsSuffix t u → IsSuffix s u
IsSuffix-trans h whole = h
IsSuffix-trans h (later k) = later (IsSuffix-trans h k)

abbrev pub IsPart : Option String → String → Type 0
IsPart none name = Unit
IsPart (some s) name = IsSuffix s name

abbrev pub chars : String → ℕ
chars String.[] = 0
chars (String.◌∷◌ c s) = suc (chars s)

skip_dots-IsSuffix : (s : String) → IsSuffix (skip_dots s) s
unfolding skip_dots
skip_dots-IsSuffix String.[] = whole
skip_dots-IsSuffix (String.◌∷◌ c s) = elim (Bool-cases (code c == dot)) [
  | inl yes_dot ↦ rw (yes_dot, skip_dots) (later (skip_dots-IsSuffix s))
  | inr no_dot ↦ rw (no_dot, skip_dots) whole
]

chars-skip_dots : (s : String) → chars (skip_dots s) ≤ chars s
unfolding skip_dots
chars-skip_dots String.[] = omega arith
chars-skip_dots (String.◌∷◌ c s) = ground (arith, chars-skip_dots s)

from_dot-IsSuffix : (s : String) {t : String} → from_dot s ≡ some t → IsSuffix t s
unfolding from_dot
from_dot-IsSuffix String.[] h = cc
from_dot-IsSuffix (String.◌∷◌ c s) {t} h = elim (Bool-cases (code c == dot)) [
  | inl here ↦ let same : String.◌∷◌ c s ≡ t = ground arith in rw same whole
  | inr other ↦ later (from_dot-IsSuffix s (rw (other, from_dot) at h))
]

-- The walk goes on with a shorter name.
from_dot_shorter : (s : String) {t : String} → from_dot s ≡ some t → chars (skip_dots t) < chars s
unfolding from_dot skip_dots
from_dot_shorter String.[] h = cc
from_dot_shorter (String.◌∷◌ c s) {t} h = elim (Bool-cases (code c == dot)) [
  | inl here ↦
      let same : String.◌∷◌ c s ≡ t = ground arith in
      let skipped : skip_dots t ≡ skip_dots s = rw (sym same, here, skip_dots) refl in
      rw skipped (omega (arith, chars-skip_dots s))
  | inr other ↦ let rest = from_dot_shorter s (rw (other, from_dot) at h) in omega arith
]

last_label-IsPart :
    (prev curr : Option String) (name : String)
    → IsPart prev name
    → IsPart curr name
    → IsPart (last_label prev curr) name
unfolding last_label
last_label-IsPart prev none name h k = tt
last_label-IsPart prev (some c) name h k = elim (Option-cases (from_dot c)) [
  | inl none_left ↦ rw (none_left, last_label) h
  | inr (t, dotted) ↦ rw (dotted, last_label) k
]

by_rule-IsPart :
    (r : Rule) (prev curr : Option String) (next name : String)
    → IsPart prev name
    → IsPart curr name
    → IsSuffix next name
    → IsPart (by_rule r prev curr next) name
by_rule-IsPart r prev curr next name h k l = chosen r.r_exception r.r_wildcard
  where
    chosen :
        (exception wildcard : Bool)
        → IsPart
            (if exception then some next else if wildcard then prev else last_label prev curr)
            name
    chosen true wildcard = l
    chosen false true = h
    chosen false false = last_label-IsPart prev curr name h k

module _ (sht_lookup : String → Option Rule) where
  regdom_loop-IsPart :
      (name : String) (fuel : ℕ) (prev curr : Option String) (next : String)
      → IsPart prev name
      → IsPart curr name
      → IsSuffix next name
      → chars (skip_dots next) < fuel
      → (r : Option String) × ((regdom_loop sht_lookup fuel prev curr next ≡ some r)
          × IsPart r name)
  unfolding regdom_loop
  regdom_loop-IsPart name zero prev curr next h k l m = (none, (ground arith, tt))
  regdom_loop-IsPart name (suc fuel) prev curr next h k l m =
      let here = IsSuffix-trans (skip_dots-IsSuffix next) l in
      elim (Option-cases (sht_lookup (skip_dots next))) [
        | inr (r, found) ↦ (
          by_rule r prev curr (skip_dots next),
          (rw (found, regdom_loop) refl, by_rule-IsPart r prev curr (skip_dots next) name h k here),
        )
        | inl unknown ↦ elim (Option-cases (from_dot (skip_dots next))) [
          | inl alone ↦ (
            last_label curr (some (skip_dots next)),
            (
              rw (unknown, alone, regdom_loop) refl,
              last_label-IsPart curr (some (skip_dots next)) name k here,
            ),
          )
          | inr (t, dotted) ↦
              let (r, (e, part)) =
                regdom_loop-IsPart name fuel curr (some (skip_dots next)) t k here
                  (IsSuffix-trans (from_dot-IsSuffix (skip_dots next) dotted) here)
                  (omega (arith, from_dot_shorter (skip_dots next) dotted)) in
              (r, (rw (unknown, dotted, regdom_loop) e, part))
        ]
      ]

  -- With more fuel than the name has characters the walk ends, and what it returns is NULL or an end of the name.
  pub regdom-IsPart :
      (name : String) (fuel : ℕ)
      → chars name < fuel
      → (r : Option String) × ((regdom sht_lookup fuel name ≡ some r) × IsPart r name)
  unfolding regdom
  regdom-IsPart String.[] fuel h =
      regdom_loop-IsPart "" fuel none none "" tt tt whole (omega (arith, chars-skip_dots ""))
  regdom-IsPart (String.◌∷◌ c s) fuel h = elim (Bool-cases (code c == dot)) [
    | inl leading ↦ (none, (rw leading refl, tt))
    | inr other ↦
        let name = String.◌∷◌ c s in
        let (r, (e, part)) =
          regdom_loop-IsPart name fuel none none name tt tt whole
            (omega (arith, chars-skip_dots name)) in
        (r, (rw other e, part))
  ]
