-- ===== src/Util/Quote.antt =====
-- What a quoted text reads as.
use Prim.Native.Char.{Char, code}
use Prim.Native.String.{len}
use mopher.Prelude.{
  ℕ, ◌+◌, ◌≡◌, ◌<◌, ◌≤◌, ◌⊎◌, arith, String, true, false, Option, none, some, ◌==◌, leb, Bool-cases,
  inl, inr, Option-cases,
}
use mopher.Exec.{Result, ok, fail}
use mopher.Util.{strchr, before, followed_by, contains, quote_between, util_quote}

strchr-skip :
    (c : ℕ) (d : Char) (s : String)
    → strchr c (String.◌∷◌ d s) ≡ none
    → ((code d == c) ≡ false) × (strchr c s ≡ none)
unfolding strchr
strchr-skip c d s h = elim (Bool-cases (code d == c)) [
  | inl e ↦ absurd (ground (arith, e, h))
  | inr e ↦ (e, ground (arith, e, h))
]

before-followed_by :
    (s : String) (c : Char) → strchr (code c) s ≡ none → before (code c) (followed_by s c) ≡ some s
unfolding before followed_by
before-followed_by String.[] c h = ground arith
before-followed_by (String.◌∷◌ d s) c h =
    let (ne, rest) = strchr-skip (code c) d s h in rw (ne, before-followed_by s c rest)

strchr-first : (c : Char) (s : String) → strchr (code c) (String.◌∷◌ c s) ≡ some s
unfolding strchr
strchr-first c s = ground arith

-- A text that reads, from the first opening character to the next closing one, as `str`
abbrev pub Reads : Char → Char → String → String → Type 0
Reads start end q str =
    (rest : String) × (strchr (code start) q ≡ some rest) × (before (code end) rest ≡ some str)

module _ (size : ℕ) (str : String) where
  -- A text is refused only where a quote stands in it or the buffer is too small; what is returned reads as
  -- the text, and fits.
  abbrev pub Quoted : Char → Char → Option String → Type 0
  Quoted start end none =
      (contains str start ≡ true) ⊎ ((contains str end ≡ true) ⊎ (size ≤ len str + 2))
  Quoted start end (some q) =
      (strchr (code start) str ≡ none)
      × (strchr (code end) str ≡ none)
      × Reads start end q str
      × (len str + 2 < size)

  quote_between-Quoted : (start end : Char) → Quoted start end (quote_between size str start end)
  unfolding quote_between
  quote_between-Quoted start end = elim (Option-cases (strchr (code start) str)) [
    | inr (rest, e) ↦ rw (Quoted, e) (inl (ground (arith, e)))
    | inl e ↦
        rw (Quoted, e)
          (elim (Option-cases (strchr (code end) str)) [
            | inr (rest, f) ↦ rw (Quoted, f) (inr (inl (ground (arith, f))))
            | inl f ↦
                rw (Quoted, f)
                  (elim (Bool-cases (leb size (len str + 2))) [
                    | inl small ↦ rw (Quoted, small) (inr (inr (ground arith)))
                    | inr room ↦
                        rw (Quoted, room)
                          (
                            e,
                            f,
                            (
                              followed_by str end,
                              strchr-first start (followed_by str end),
                              before-followed_by str end f,
                            ),
                            ground arith,
                          )
                  ])
          ])
  ]

  abbrev pub closing : Char → String → Char
  closing q String.[] = q
  closing q (String.◌∷◌ r rest) = r

  abbrev pub IsQuoted : Char → Char → Result (Option String) → Type 0
  IsQuoted start end (ok o) = Quoted start end o
  IsQuoted start end (fail e) = ⊥

  pub util_quote-IsQuoted :
      (q : Char) (rest : String)
      → IsQuoted q (closing q rest) (util_quote size str (String.◌∷◌ q rest))
  unfolding util_quote
  util_quote-IsQuoted q String.[] = quote_between-Quoted q q
  util_quote-IsQuoted q (String.◌∷◌ r rest) = quote_between-Quoted q r
