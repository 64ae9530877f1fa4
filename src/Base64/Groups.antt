-- ===== src/Base64/Groups.antt =====
-- The text of a sequence of bytes by groups of three, with what decodes it (`base64_encode` and
-- `base64_decode` of src/base64.c).
use mopher.Prelude.{
  ℕ, suc, ◌%◌, ◌<◌, ◌≡◌, refl, ap, ◌∙◌, Bool-cases, inl, inr, List, [], ◌∷◌, ◌++◌, length,
  replicate, ◌==◌, arith,
}
use mopher.Exec.{ok}
use mopher.Base64.{
  encode_sextet, pad, quad, triple_of, encode_groups, pad_last, pad_second, pad_zeroes, pad_count,
  decode_groups, base64_encsize,
}
use mopher.Base64.Alphabet.{
  high, middle, low, encode_sextet_no_pad, decode_quad-quad, decode_quad_two, decode_quad_one,
}

-- The encoding of RFC 4648: a last group of one or two bytes has `=` in place of the sextets it lacks.
unfoldable pub encoded : List ℕ → List ℕ
encoded [] = []
encoded (a ∷ []) =
    let t = triple_of a 0 0 in encode_sextet (high t) ∷ encode_sextet (middle t) ∷ pad ∷ pad ∷ []
encoded (a ∷ b ∷ []) =
    let t = triple_of a b 0 in
    encode_sextet (high t) ∷ encode_sextet (middle t) ∷ encode_sextet (low t) ∷ pad ∷ []
encoded (a ∷ b ∷ c ∷ rest) =
    let t = triple_of a b c in
    encode_sextet (high t)
    ∷ encode_sextet (middle t)
    ∷ encode_sextet (low t)
    ∷ encode_sextet (t % 64)
    ∷ encoded rest

-- How many bytes the last group lacks
abbrev pub missing : List ℕ → ℕ
missing [] = 0
missing (a ∷ []) = 2
missing (a ∷ b ∷ []) = 1
missing (a ∷ b ∷ c ∷ rest) = missing rest

abbrev pub Bytes : List ℕ → Type 0
Bytes [] = Unit
Bytes (b ∷ bs) = (b < 256) × Bytes bs

-- The padding of a text that begins with a whole group is that of the rest.
pad_last_after :
    (w x u v : ℕ) (y z : ℕ) (zs : List ℕ)
    → pad_last (w ∷ x ∷ u ∷ v ∷ pad_second (y ∷ z ∷ zs))
      ≡ w ∷ x ∷ u ∷ v ∷ pad_last (pad_second (y ∷ z ∷ zs))
pad_last_after w x u v y z [] = refl
pad_last_after w x u v y z (e ∷ es) = refl

pad_zeroes_after :
    (k : ℕ) (w x u v y z : ℕ) (zs : List ℕ)
    → pad_zeroes k (w ∷ x ∷ u ∷ v ∷ y ∷ z ∷ zs) ≡ w ∷ x ∷ u ∷ v ∷ pad_zeroes k (y ∷ z ∷ zs)
pad_zeroes_after k w x u v y z zs = elim (Bool-cases (k == 1)) [
  | inl one ↦ rw one (pad_last_after w x u v y z zs)
  | inr other ↦
      rw other (elim (Bool-cases (k == 2)) [ inl two ↦ rw two refl | inr none ↦ rw none refl ])
]

encode_groups_two :
    (d : ℕ) (r : List ℕ)
    → (y : ℕ) × ((z : ℕ) × ((zs : List ℕ) × (encode_groups (d ∷ r) ≡ y ∷ z ∷ zs)))
unfolding encode_groups quad
encode_groups_two d [] = (_, (_, (_, refl)))
encode_groups_two d (e ∷ []) = (_, (_, (_, refl)))
encode_groups_two d (e ∷ f ∷ r) = (_, (_, (_, refl)))

pad_zeroes-group :
    (k w x u v d : ℕ) (r : List ℕ)
    → pad_zeroes k (w ∷ x ∷ u ∷ v ∷ encode_groups (d ∷ r))
      ≡ w ∷ x ∷ u ∷ v ∷ pad_zeroes k (encode_groups (d ∷ r))
pad_zeroes-group k w x u v d r =
    let (y, (z, (zs, e))) = encode_groups_two d r in rw e (pad_zeroes_after k w x u v y z zs)

length-group : (n : ℕ) → suc (suc (suc n)) % 3 ≡ n % 3
length-group n = omega arith

-- The text that `base64_encode` leaves is that encoding.
pub pad_zeroes-encoded :
    (src : List ℕ) → pad_zeroes (length src % 3) (encode_groups src) ≡ encoded src
unfolding encode_groups quad encoded
pad_zeroes-encoded [] = refl
pad_zeroes-encoded (a ∷ []) = refl
pad_zeroes-encoded (a ∷ b ∷ []) = refl
pad_zeroes-encoded (a ∷ b ∷ c ∷ []) = refl
pad_zeroes-encoded (a ∷ b ∷ c ∷ (d ∷ r)) = rw (length-group (length (d ∷ r))) (
    pad_zeroes-group (length (d ∷ r) % 3) _ _ _ _ d r
    ∙ ap (λ t. quad (triple_of a b c) ++ t) (pad_zeroes-encoded (d ∷ r)))

-- Decoding returns the bytes, with a 0 for each byte that the last group lacks.
pub decode_groups-encoded :
    (src : List ℕ) → Bytes src → decode_groups (encoded src) ≡ ok (src ++ replicate (missing src) 0)
unfolding encoded decode_groups
decode_groups-encoded [] h = refl
decode_groups-encoded (a ∷ []) (ha, h) = rw (decode_quad_one a ha) refl
decode_groups-encoded (a ∷ b ∷ []) (ha, (hb, h)) = rw (decode_quad_two a b ha hb) refl
decode_groups-encoded (a ∷ b ∷ c ∷ rest) (ha, (hb, (hc, h))) =
    rw (decode_quad-quad a b ha hb _ c hc, decode_groups-encoded rest h) refl

pub length-encoded : (src : List ℕ) → length (encoded src) ≡ base64_encsize (length src)
unfolding encoded base64_encsize
length-encoded [] = refl
length-encoded (a ∷ []) = refl
length-encoded (a ∷ b ∷ []) = refl
length-encoded (a ∷ b ∷ c ∷ rest) = omega (arith, length-encoded rest)

pad_count_none : pad_count [] ≡ 0
unfolding pad_count
pad_count_none = refl

pad_count_one : pad_count (pad ∷ []) ≡ 1
unfolding pad_count
pad_count_one = refl

pad_count_two : pad_count (pad ∷ pad ∷ []) ≡ 2
unfolding pad_count
pad_count_two = refl

pad_count-encode_sextet :
    (i : ℕ) (text : List ℕ) → i < 64 → pad_count (encode_sextet i ∷ text) ≡ pad_count text
unfolding pad_count
pad_count-encode_sextet i text h = rw (encode_sextet_no_pad i h) (ground arith)

pub pad_count-encoded : (src : List ℕ) → pad_count (encoded src) ≡ missing src
unfolding encoded
pad_count-encoded [] = pad_count_none
pad_count-encoded (a ∷ []) =
    let t = triple_of a 0 0 in
    pad_count-encode_sextet (high t) _ (omega arith)
    ∙ (pad_count-encode_sextet (middle t) _ (omega arith) ∙ pad_count_two)
pad_count-encoded (a ∷ b ∷ []) =
    let t = triple_of a b 0 in
    pad_count-encode_sextet (high t) _ (omega arith)
    ∙ (pad_count-encode_sextet (middle t) _ (omega arith)
        ∙ (pad_count-encode_sextet (low t) _ (omega arith) ∙ pad_count_one))
pad_count-encoded (a ∷ b ∷ c ∷ rest) =
    let t = triple_of a b c in
    pad_count-encode_sextet (high t) _ (omega arith)
    ∙ (pad_count-encode_sextet (middle t) _ (omega arith)
        ∙ (pad_count-encode_sextet (low t) _ (omega arith)
            ∙ (pad_count-encode_sextet (t % 64) _ (omega arith) ∙ pad_count-encoded rest)))
