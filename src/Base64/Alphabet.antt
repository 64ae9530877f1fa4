-- ===== src/Base64/Alphabet.antt =====
-- The 64 characters of the alphabet, and one group of four of them.
use mopher.Prelude.{
  ap, ◌∙◌, not, Bool-cases, inl, inr, ==_iff, ℕ, zero, suc, ◌+◌, ◌*◌, ◌/◌, ◌%◌, ◌<◌, ◌≡◌, refl,
  Bool, true, false, ◌&&◌, Option, none, some, List, [], ◌∷◌, ltb, ◌==◌, arith,
}
use mopher.Exec.{Result, ok}
use mopher.Base64.{encode_sextet, decoder, sextet, pad, triple_of, decode_quad, bytes_of}

-- What is tested for the numbers below a bound
abbrev all_below : ℕ → (ℕ → Bool) → Bool
all_below zero f = true
all_below (suc n) f = f n && all_below n f

all_below-true : (n : ℕ) (f : ℕ → Bool) → all_below n f ≡ true → (i : ℕ) → i < n → f i ≡ true
all_below-true zero f h i l = ground arith
all_below-true (suc n) f h i l =
    let rest = all_below-true n f in
    elim (Bool-cases (i == n)) [
      | inl same ↦ rw ((==_iff i n).0 same) (ground arith)
      | inr other ↦ rest (ground arith) i (ground arith)
    ]

abbrev is_index : Option ℕ → ℕ → Bool
is_index none i = false
is_index (some j) i = j == i

abbrev decodes : ℕ → Bool
decodes i = ltb (encode_sextet i) 128 && is_index (decoder (encode_sextet i)) i

abbrev is_no_pad : ℕ → Bool
is_no_pad i = not (encode_sextet i == pad)

alphabet : all_below 64 decodes ≡ true
unfolding decoder encode_sextet
alphabet = refl

no_pad : all_below 64 is_no_pad ≡ true
unfolding encode_sextet
no_pad = refl

is_index-some : (o : Option ℕ) (i : ℕ) → is_index o i ≡ true → o ≡ some i
is_index-some none i h = cc
is_index-some (some j) i h = ap some ((==_iff j i).0 h)

-- A character of the alphabet is decoded to its number.
pub sextet-encode_sextet : (i : ℕ) → i < 64 → sextet (encode_sextet i) ≡ ok (some i)
unfolding sextet
sextet-encode_sextet i h =
    let all = all_below-true 64 decodes alphabet i h in
    let known = is_index-some (decoder (encode_sextet i)) i (ground arith) in
    rw known (ground arith)

pub encode_sextet_no_pad : (i : ℕ) → i < 64 → (encode_sextet i == pad) ≡ false
encode_sextet_no_pad i h = let all = all_below-true 64 is_no_pad no_pad i h in ground arith

module _ (p q : ℕ) (hp : p < 64) (hq : q < 64) where
  decode_quad-four :
      (last : Bool) (r s : ℕ)
      → r < 64
      → s < 64
      → decode_quad last (encode_sextet p) (encode_sextet q) (encode_sextet r) (encode_sextet s)
        ≡ bytes_of (some p) (some q) (some r) (some s)
  unfolding decode_quad
  decode_quad-four true r s hr hs =
      rw
        (
          sextet-encode_sextet p hp,
          sextet-encode_sextet q hq,
          sextet-encode_sextet r hr,
          sextet-encode_sextet s hs,
          encode_sextet_no_pad s hs,
        )
        refl
  decode_quad-four false r s hr hs =
      rw
        (
          sextet-encode_sextet p hp,
          sextet-encode_sextet q hq,
          sextet-encode_sextet r hr,
          sextet-encode_sextet s hs,
        )
        refl

  decode_quad-three :
      (r : ℕ)
      → r < 64
      → decode_quad true (encode_sextet p) (encode_sextet q) (encode_sextet r) pad
        ≡ bytes_of (some p) (some q) (some r) (some 0)
  unfolding decode_quad sextet decoder
  decode_quad-three r hr =
      rw
        (
          sextet-encode_sextet p hp,
          sextet-encode_sextet q hq,
          sextet-encode_sextet r hr,
          encode_sextet_no_pad r hr,
        )
        refl

  decode_quad-two :
      decode_quad true (encode_sextet p) (encode_sextet q) pad pad
      ≡ bytes_of (some p) (some q) (some 0) (some 0)
  unfolding decode_quad sextet decoder
  decode_quad-two = rw (sextet-encode_sextet p hp, sextet-encode_sextet q hq) refl

-- The number of a group of three bytes, from its four sextets
abbrev pub high : ℕ → ℕ
high t = t / 262144 % 64

abbrev pub middle : ℕ → ℕ
middle t = t / 4096 % 64

abbrev pub low : ℕ → ℕ
low t = t / 64 % 64

-- The three bytes of a number
abbrev pub bytes_in : ℕ → Result (List ℕ)
bytes_in n = ok (n / 65536 % 256 ∷ n / 256 % 256 ∷ n % 256 ∷ [])

bytes_in-triple_of :
    (n a b c : ℕ)
    → a < 256
    → b < 256
    → c < 256
    → n ≡ triple_of a b c
    → bytes_in n ≡ ok (a ∷ b ∷ c ∷ [])
bytes_in-triple_of n a b c ha hb hc h =
    let x : n / 65536 % 256 ≡ a = omega arith in
    let y : n / 256 % 256 ≡ b = omega arith in
    let z : n % 256 ≡ c = omega arith in rw (x, y, z) refl

module _ (a b : ℕ) (ha : a < 256) (hb : b < 256) where
  -- A group of three bytes comes back, whether it is the last or not.
  pub decode_quad-quad :
      (last : Bool) (c : ℕ)
      → c < 256
      → decode_quad last
          (encode_sextet (high (triple_of a b c)))
          (encode_sextet (middle (triple_of a b c)))
          (encode_sextet (low (triple_of a b c)))
          (encode_sextet (triple_of a b c % 64))
        ≡ ok (a ∷ b ∷ c ∷ [])
  decode_quad-quad last c hc =
      let t = triple_of a b c in
      decode_quad-four (high t) (middle t) (omega arith) (omega arith) last (low t) (t % 64)
        (omega arith) (omega arith)
      ∙ bytes_in-triple_of (high t * 262144 + middle t * 4096 + low t * 64 + t % 64) a b c ha hb hc
          (omega arith)

  -- Two bytes come back with a 0 after them.
  pub decode_quad_two :
      decode_quad true
        (encode_sextet (high (triple_of a b 0)))
        (encode_sextet (middle (triple_of a b 0)))
        (encode_sextet (low (triple_of a b 0)))
        pad
      ≡ ok (a ∷ b ∷ 0 ∷ [])
  decode_quad_two =
      let t = triple_of a b 0 in
      decode_quad-three (high t) (middle t) (omega arith) (omega arith) (low t) (omega arith)
      ∙ bytes_in-triple_of (high t * 262144 + middle t * 4096 + low t * 64 + 0) a b 0 ha hb
          (omega arith) (omega arith)

-- One byte comes back with two 0 after it.
pub decode_quad_one :
    (a : ℕ)
    → a < 256
    → decode_quad true
        (encode_sextet (high (triple_of a 0 0)))
        (encode_sextet (middle (triple_of a 0 0)))
        pad
        pad
      ≡ ok (a ∷ 0 ∷ 0 ∷ [])
decode_quad_one a ha =
    let t = triple_of a 0 0 in
    decode_quad-two (high t) (middle t) (omega arith) (omega arith)
    ∙ bytes_in-triple_of (high t * 262144 + middle t * 4096 + 0 * 64 + 0) a 0 0 ha (omega arith)
        (omega arith) (omega arith)
