-- ===== src/Util.antt =====
-- Mail addresses in texts (src/util.c). Sizes are those of the buffers that take a result.
pub mod Address
pub mod Quote
mod Tests
use Prim.Native.Char.{Char, code}
use Prim.Native.String.{len}
use mopher.Prelude.{
  ℕ, ◌+◌, ◌≤◌, ◌-◌, List, [], ◌∷◌, Bool, true, false, ◌&&◌, String, Option, none, some, ltb, leb,
  ◌==◌, if◌then◌else◌,
}
use mopher.Exec.{Result, ok, fail, undefined}

-- `strchr`, as the text behind the first such character
unfoldable pub strchr : ℕ → String → Option String
strchr c String.[] = none
strchr c (String.◌∷◌ d s) = let rest = strchr c s in if code d == c then some s else rest

-- `strrchr`, as the text behind the last one
unfoldable pub strrchr : ℕ → String → Option String
strrchr c String.[] = none
strrchr c (String.◌∷◌ d s) =
    let rest = strrchr c s in
    elim rest [ some t ↦ some t | none ↦ if code d == c then some s else none ]

-- The text in front of the first such character
unfoldable pub before : ℕ → String → Option String
before c String.[] = none
before c (String.◌∷◌ d s) =
    let rest = before c s in
    if code d == c then some "" else elim rest [ none ↦ none | some t ↦ some (String.◌∷◌ d t) ]

-- `none` is -1: no brackets, or no room for the text between them and the byte that ends it.
unfoldable pub util_strmail : ℕ → String → Option String
unfolding strchr before
util_strmail size src = elim (strchr b'<' src) [
  | none ↦ none
  | some start ↦ elim (before b'>' start) [
    | none ↦ none
    | some t ↦ if leb size (len t) then none else some t
  ]
]

-- The text behind the last `@`, nothing if there is none
unfoldable pub util_strdomain : ℕ → String → Option String
unfolding strrchr
util_strdomain size src = elim (strrchr b'@' src) [
  | none ↦ if ltb 0 size then some "" else none
  | some start ↦ if ltb (size + 1) (len start) then none else some start
]

-- The text in front of a last character `>`
unfoldable pub before_last : String → Option String
before_last String.[] = none
before_last (String.◌∷◌ c String.[]) = if code c == b'>' then some "" else none
before_last (String.◌∷◌ c (String.◌∷◌ d s)) =
    let rest = before_last (String.◌∷◌ d s) in
    elim rest [ none ↦ none | some t ↦ some (String.◌∷◌ c t) ]

-- `util_strdupenc(src, "<>")`
unfoldable pub util_strdupenc : String → String
unfolding before_last
util_strdupenc String.[] = ""
util_strdupenc (String.◌∷◌ c s) =
    if code c == b'<'
    then (elim (before_last s) [ none ↦ String.◌∷◌ c s | some t ↦ t ])
    else String.◌∷◌ c s

-- A text and one more character
unfoldable pub followed_by : String → Char → String
followed_by String.[] c = String.◌∷◌ c String.[]
followed_by (String.◌∷◌ d s) c = String.◌∷◌ d (followed_by s c)

abbrev pub contains : String → Char → Bool
contains s c = elim (strchr (code c) s) [ none ↦ false | some rest ↦ true ]

-- The text between two characters: neither stands in it, and both, with the byte that ends it, fit.
unfoldable pub quote_between : ℕ → String → Char → Char → Option String
unfolding strchr followed_by
quote_between size str start end =
    if contains str start
    then none
    else if contains str end
    then none
    else if leb size (len str + 2)
    then none
    else some (String.◌∷◌ start (followed_by str end))

-- `none` is -1. The caller's `quotes` has one character, or the second one is read.
unfoldable pub util_quote : ℕ → String → String → Result (Option String)
unfolding quote_between
util_quote size str String.[] = fail undefined
util_quote size str (String.◌∷◌ q String.[]) = ok (quote_between size str q q)
util_quote size str (String.◌∷◌ q (String.◌∷◌ r rest)) = ok (quote_between size str q r)

-- `strcpy` behind the text that is there
unfoldable pub join : String → String → String
join String.[] t = t
join (String.◌∷◌ c s) t = String.◌∷◌ c (join s t)

-- The loop over the parts, with the length that the buffer has; `none` is -1.
unfoldable pub concat_from : ℕ → ℕ → List String → Option String
unfolding join
concat_from size filled [] = some ""
concat_from size filled (part ∷ parts) =
    let rest = concat_from size (filled + len part) parts in
    if ltb size (filled + len part + 1)
    then none
    else elim rest [ none ↦ none | some t ↦ some (join part t) ]

unfoldable pub util_concat : ℕ → List String → Option String
unfolding concat_from
util_concat size parts = concat_from size 0 parts

-- The text in front of the first dot, or all of it
abbrev pub without_ending : String → String
without_ending s = elim (before b'.' s) [ none ↦ s | some t ↦ t ]

-- What stands behind the last slash, without its ending; `none` is -1.
unfoldable pub util_stripped_filename : ℕ → String → Option String
unfolding strrchr before
util_stripped_filename size path = elim (strrchr b'/' path) [
  | none ↦ if leb size (len path) then none else some (without_ending path)
  | some String.[] ↦ some ""
  | some (String.◌∷◌ c s) ↦
      if leb size (len (String.◌∷◌ c s)) then none else some (without_ending (String.◌∷◌ c s))
]
