-- ===== src/Base64/Tests.antt =====
-- Runs of the encoder and the decoder, and uses of the theorems on them.
use mopher.Prelude.{ℕ, ◌++◌, ◌≡◌, refl, List, [], ◌∷◌, length, take, arith}
use mopher.Exec.{ok, fail, error, undefined}
use mopher.Base64.{
  codes, base64_encode, base64_decode, base64_enc_malloc, base64_dec_malloc, base64_encsize,
}
use mopher.Base64.Groups.{encoded, Bytes}
use mopher.Base64.Round.{
  base64_encode-encoded, base64_decode-base64_encode, base64_dec_malloc-base64_enc_malloc,
}

abbrev hello : List ℕ
hello = codes "Hello World"

hello-Bytes : Bytes hello
hello-Bytes = (
  omega arith,
  (
    omega arith,
    (
      omega arith,
      (
        omega arith,
        (
          omega arith,
          (
            omega arith,
            (omega arith, (omega arith, (omega arith, (omega arith, (omega arith, tt))))),
          ),
        ),
      ),
    ),
  ),
)

-- The case of the source's own test
hello_text : base64_enc_malloc hello ≡ ok (codes "SGVsbG8gV29ybGQ=")
unfolding base64_enc_malloc
hello_text = refl

-- Four characters `=` behind a whole text are passed over.
extra_pads : base64_decode 8 (codes "dGVzdA====") ≡ ok (4, codes "test" ++ (0 ∷ 0 ∷ []))
unfolding base64_decode
extra_pads = refl

-- Of six `=` all but two are passed over, and the length counts three bytes more than the text holds.
six_pads : base64_decode 8 (codes "MQ======") ≡ ok (4, b'1' ∷ 0 ∷ 0 ∷ [])
unfolding base64_decode
six_pads = refl

inner_pad : base64_decode 8 (codes "dGVzd=A=") ≡ fail error
unfolding base64_decode
inner_pad = refl

only_pads : base64_dec_malloc (codes "==") ≡ fail undefined
unfolding base64_dec_malloc
only_pads = refl

encoded_sample : base64_encode 17 hello ≡ ok (length (encoded hello), encoded hello)
unfolding encoded
encoded_sample = base64_encode-encoded 17 hello (omega arith)

base64_decode-base64_encode_example :
    (text : List ℕ) × ((base64_encode 17 hello ≡ ok (base64_encsize 11, text))
      × ((out : List ℕ) × ((base64_decode 11 text ≡ ok (11, out)) × (take 11 out ≡ hello))))
unfolding base64_encsize
base64_decode-base64_encode_example =
    base64_decode-base64_encode 17 11 hello hello-Bytes (omega arith) (omega arith) (omega arith)

hello_back :
    (text : List ℕ) × ((base64_enc_malloc hello ≡ ok text)
      × ((out : List ℕ) × ((base64_dec_malloc text ≡ ok (11, out)) × (take 11 out ≡ hello))))
hello_back = base64_dec_malloc-base64_enc_malloc hello hello-Bytes (omega arith)
