-- ===== src/Base64/Round.antt =====
-- Encoding and decoding a sequence of bytes (`base64_encode`, `base64_decode` of src/base64.c).
use mopher.Prelude.{
  ℕ, ◌+◌, ◌*◌, ◌/◌, ◌%◌, ◌<◌, ◌≤◌, ◌≡◌, refl, ◌∙◌, true, false, List, [], ◌∷◌, ◌++◌, length, take,
  take-append, replicate, ltb, ◌==◌, if◌then◌else◌, arith, take-all, take-take,
}
use mopher.Exec.{Result, ok}
use mopher.Base64.{
  base64_encsize, base64_encode, base64_decsize, base64_decode, base64_enc_malloc,
  base64_dec_malloc, pad_count, unpadded,
}
use mopher.Base64.Groups.{
  encoded, missing, Bytes, pad_zeroes-encoded, decode_groups-encoded, length-encoded,
  pad_count-encoded,
}

abbrev counted : List ℕ → Result (ℕ × List ℕ)
counted src = if length src == 0 then ok (0, []) else ok (base64_encsize (length src), encoded src)

counted_text : (src : List ℕ) → counted src ≡ ok (base64_encsize (length src), encoded src)
unfolding encoded base64_encsize
counted_text [] = refl
counted_text (b ∷ bs) = ground arith

-- In a buffer with room for the text and the byte that ends it, the encoder leaves the encoding of RFC 4648.
pub base64_encode-encoded :
    (size : ℕ) (src : List ℕ)
    → length (encoded src) < size
    → base64_encode size src ≡ ok (length (encoded src), encoded src)
unfolding base64_encode
base64_encode-encoded size src h =
    let same = length-encoded src in
    let room : ltb size (base64_encsize (length src) + 1) ≡ false = ground arith in
    rw (room, pad_zeroes-encoded src, same) (counted_text src)

missing_groups : (src : List ℕ) → length src + missing src ≡ 3 * ((length src + 2) / 3)
missing_groups [] = refl
missing_groups (a ∷ []) = refl
missing_groups (a ∷ b ∷ []) = refl
missing_groups (a ∷ b ∷ c ∷ rest) = omega (arith, missing_groups rest)

missing_bound : (src : List ℕ) → missing src ≤ 2
missing_bound [] = omega arith
missing_bound (a ∷ []) = omega arith
missing_bound (a ∷ b ∷ []) = omega arith
missing_bound (a ∷ b ∷ c ∷ rest) = missing_bound rest

base64_decsize-encoded : (src : List ℕ) → base64_decsize (encoded src) ≡ length src
unfolding base64_decsize base64_encsize
base64_decsize-encoded src =
    rw (pad_count-encoded src, length-encoded src)
      (ground (arith, missing_groups src, missing_bound src))

module _ (src : List ℕ) where
  unpadded-encoded : unpadded (encoded src) ≡ length (encoded src)
  unpadded-encoded = ground (arith, pad_count-encoded src, missing_bound src)

  whole_groups : length (encoded src) % 4 ≡ 0
  unfolding base64_encsize
  whole_groups = omega (arith, length-encoded src)

  pads_fewer : 0 < length src → pad_count (encoded src) < length (encoded src)
  unfolding base64_encsize
  pads_fewer h = omega (arith, length-encoded src, pad_count-encoded src, missing_bound src)

  char_before_pads : 0 < length src → (pad_count (encoded src) == length (encoded src)) ≡ false
  char_before_pads h = let fewer = pads_fewer h in ground arith

-- The bytes that decoding counts are the ones that were encoded.
pub base64_decode-encoded :
    (size : ℕ) (src : List ℕ)
    → Bytes src
    → 0 < length src
    → length src ≤ size
    → base64_decode size (encoded src)
      ≡ ok (length src, take size (src ++ replicate (missing src) 0))
unfolding base64_decode
base64_decode-encoded size src h nonempty fits =
    let text = encoded src in
    let fewer = pads_fewer src nonempty in
    let some_text : (length text == 0) ≡ false = ground arith in
    let some_char = char_before_pads src nonempty in
    let whole : (length text % 4 == 0) ≡ true = ground (arith, whole_groups src) in
    let room : ltb size (length src) ≡ false = ground arith in
    rw
      (
        some_text,
        some_char,
        unpadded-encoded src,
        whole,
        base64_decsize-encoded src,
        room,
        take-all (length text) text (omega arith),
        decode_groups-encoded src h,
      )
      refl

base64_decode_empty : (room : ℕ) → 0 < room → base64_decode room (encoded []) ≡ ok (0, 0 ∷ [])
unfolding base64_decode encoded
base64_decode_empty room h = ground arith

-- Every sequence of bytes comes back: a buffer with room for the text and the byte that ends it gets a text, and in a buffer of at least one byte that has room for the bytes, decoding this text counts as many bytes as there were and leaves them in front.
pub base64_decode-base64_encode :
    (size room : ℕ) (src : List ℕ)
    → Bytes src
    → base64_encsize (length src) < size
    → 0 < room
    → length src ≤ room
    → (text : List ℕ) × ((base64_encode size src ≡ ok (base64_encsize (length src), text))
        × ((out : List ℕ) × ((base64_decode room text ≡ ok (length src, out))
              × (take (length src) out ≡ src))))
base64_decode-base64_encode size room [] h fits some_room enough =
    let text = base64_encode-encoded size [] (omega (arith, length-encoded [])) in
    (
      encoded [],
      (rw (length-encoded []) at text, (0 ∷ [], (base64_decode_empty room some_room, refl))),
    )
base64_decode-base64_encode size room (b ∷ bs) h fits some_room enough =
    let src = b ∷ bs in
    let counted = base64_encode-encoded size src (omega (arith, length-encoded src)) in
    let bytes = src ++ replicate (missing src) 0 in
    (
      encoded src,
      (
        rw (length-encoded src) at counted,
        (
          take room bytes,
          (
            base64_decode-encoded room src h (omega arith) enough,
            take-take (length src) room bytes enough ∙ take-append src (replicate (missing src) 0),
          ),
        ),
      ),
    )

base64_dec_malloc-base64_decode :
    (text : List ℕ)
    → (pad_count text == length text) ≡ false
    → base64_dec_malloc text ≡ base64_decode (base64_decsize text + 1) text
unfolding base64_dec_malloc
base64_dec_malloc-base64_decode text h = rw h refl

base64_enc_malloc-encoded : (src : List ℕ) → base64_enc_malloc src ≡ ok (encoded src)
unfolding base64_enc_malloc
base64_enc_malloc-encoded src =
    rw
      (base64_encode-encoded (base64_encsize (length src) + 1) src
        (omega (arith, length-encoded src)))
      refl

-- A sequence of at least one byte is encoded to a text from which decoding, in buffers of the sizes that the program asks for, counts the bytes and leaves them in front.
pub base64_dec_malloc-base64_enc_malloc :
    (src : List ℕ)
    → Bytes src
    → 0 < length src
    → (text : List ℕ) × ((base64_enc_malloc src ≡ ok text)
        × ((out : List ℕ) × ((base64_dec_malloc text ≡ ok (length src, out))
              × (take (length src) out ≡ src))))
base64_dec_malloc-base64_enc_malloc src h nonempty =
    let zeros : List ℕ = replicate (missing src) 0 in
    let decoded = base64_decode-encoded (length src + 1) src h nonempty (omega arith) in
    let sized = base64_dec_malloc-base64_decode (encoded src) (char_before_pads src nonempty) in
    (
      encoded src,
      (
        base64_enc_malloc-encoded src,
        (
          take (length src + 1) (src ++ zeros),
          (
            sized ∙ rw (base64_decsize-encoded src) decoded,
            take-take (length src) (length src + 1) (src ++ zeros) (omega arith)
                ∙ take-append src zeros,
          ),
        ),
      ),
    )
