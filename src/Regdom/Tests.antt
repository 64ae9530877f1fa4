-- ===== src/Regdom/Tests.antt =====
-- Three rules: com, every label below ck, and the exception www.ck.
use mopher.Prelude.{
  ◌≡◌, refl, String, false, true, Option, none, some, str_eq, if◌then◌else◌, arith,
}
use mopher.Regdom.{Rule, regdom}
use mopher.Regdom.Suffix.{IsPart, regdom-IsPart}

abbrev exception : Rule
exception = record { r_exception = true; r_wildcard = false }

abbrev wildcard : Rule
wildcard = record { r_exception = false; r_wildcard = true }

abbrev plain : Rule
plain = record { r_exception = false; r_wildcard = false }

abbrev rules : String → Option Rule
rules name =
    if str_eq name "com"
    then some plain
    else if str_eq name "ck"
    then some wildcard
    else if str_eq name "www.ck"
    then some exception
    else none

domains :
    (regdom rules 20 "mail.example.com" ≡ some (some "example.com"))
    × ((regdom rules 20 "a.b.c.ck" ≡ some (some "b.c.ck"))
        × (regdom rules 20 "a.www.ck" ≡ some (some "www.ck")))
unfolding regdom
domains = (refl, (refl, refl))

regdom-IsPart_example :
    (r : Option String) × ((regdom rules 20 "mail.example.com" ≡ some r)
      × IsPart r "mail.example.com")
regdom-IsPart_example = regdom-IsPart rules "mail.example.com" 20 (omega arith)
