-- ===== src/Base64.antt =====
-- Base64 (src/base64.c). A byte is a number below 256. A text is the list of its bytes before the zero
-- byte that ends it, and memory is taken to suffice. The shifts and masks of the source are divisions
-- and remainders.
pub mod Alphabet
pub mod Groups
pub mod Round
mod Tests
use mopher.Prelude.{
  ℕ, suc, ◌+◌, ◌-◌, ◌*◌, ◌/◌, ◌%◌, Bool, true, false, not, ◌&&◌, take, Option, none, some, List, [],
  ◌∷◌, ◌++◌, length, get_or, ltb, leb, ◌==◌, if◌then◌else◌,
}
use mopher.Exec.{Result, ok, fail, error, undefined}
use Prim.Native.Char.{code}
use Prim.Native.String.{String}

abbrev pub codes : String → List ℕ
codes String.[] = []
codes (String.◌∷◌ c s) = code c ∷ codes s

abbrev pub encoder : List ℕ
encoder = codes "ABCDEFGHIJKLMNOPQRSTUVWXYZabcdefghijklmnopqrstuvwxyz0123456789+/"

unfoldable pub encode_sextet : ℕ → ℕ
encode_sextet i = get_or encoder i 0

-- The loop of `base64_init_decoder`: a later entry replaces an earlier one. `none` is -1.
unfoldable pub index_from : ℕ → List ℕ → ℕ → Option ℕ
index_from i [] c = none
index_from i (e ∷ es) c =
    let rest = index_from (suc i) es c in
    elim rest [ some j ↦ some j | none ↦ if e == c then some i else none ]

unfoldable pub decoder : ℕ → Option ℕ
unfolding index_from
decoder c = index_from 0 encoder c

abbrev pub pad : ℕ
pad = b'='

unfoldable pub base64_encsize : ℕ → ℕ
base64_encsize size = 4 * ((size + 2) / 3)

-- The four characters of three bytes
abbrev pub triple_of : ℕ → ℕ → ℕ → ℕ
triple_of a b c = a * 65536 + b * 256 + c

unfoldable pub quad : ℕ → List ℕ
unfolding encode_sextet
quad triple =
    encode_sextet (triple / 262144 % 64)
    ∷ encode_sextet (triple / 4096 % 64)
    ∷ encode_sextet (triple / 64 % 64)
    ∷ encode_sextet (triple % 64)
    ∷ []

-- The loop of `base64_encode`, which reads 0 behind the last byte
unfoldable pub encode_groups : List ℕ → List ℕ
unfolding quad
encode_groups [] = []
encode_groups (a ∷ []) = quad (triple_of a 0 0)
encode_groups (a ∷ b ∷ []) = quad (triple_of a b 0)
encode_groups (a ∷ b ∷ c ∷ rest) = quad (triple_of a b c) ++ encode_groups rest

-- `dest[j - 1] = '='`, and `dest[j - 2] = '='` before it
abbrev pub pad_last : List ℕ → List ℕ
pad_last [] = []
pad_last (x ∷ []) = pad ∷ []
pad_last (x ∷ y ∷ ys) = x ∷ pad_last (y ∷ ys)

abbrev pub pad_second : List ℕ → List ℕ
pad_second [] = []
pad_second (x ∷ []) = x ∷ []
pad_second (x ∷ y ∷ []) = pad ∷ y ∷ []
pad_second (x ∷ y ∷ z ∷ zs) = x ∷ pad_second (y ∷ z ∷ zs)

abbrev pub pad_zeroes : ℕ → List ℕ → List ℕ
pad_zeroes rest text =
    if rest == 1 then pad_last (pad_second text) else if rest == 2 then pad_last text else text

-- The length and the text that `base64_encode` leaves in a buffer of `size` bytes
unfoldable pub base64_encode : ℕ → List ℕ → Result (ℕ × List ℕ)
unfolding base64_encsize encode_groups
base64_encode size src =
    if ltb size (base64_encsize (length src) + 1)
    then fail error
    else if length src == 0
    then ok (0, [])
    else ok (base64_encsize (length src), pad_zeroes (length src % 3) (encode_groups src))

-- The number of characters at the end that are `=`
unfoldable pub pad_count : List ℕ → ℕ
pad_count [] = 0
pad_count (x ∷ xs) =
    let rest = pad_count xs in
    if rest == length xs then (if x == pad then suc rest else rest) else rest

-- `slen` is not 0 here.
unfoldable pub base64_decsize : List ℕ → ℕ
unfolding pad_count
base64_decsize src = length src / 4 * 3 - (if leb 2 (pad_count src) then 2 else pad_count src)

-- `decoder` has 256 entries, and a `char` from 128 on is a negative index.
unfoldable pub sextet : ℕ → Result (Option ℕ)
unfolding decoder
sextet c = if ltb c 128 then ok (decoder c) else fail undefined

infixl 10 ◌>>=◌
abbrev ◌>>=◌ : {A B : Type 0} → Result A → (A → Result B) → Result B
ok a >>= f = f a
fail e >>= f = fail e

-- A text with a character outside the alphabet is an error.
abbrev pub bytes_of : Option ℕ → Option ℕ → Option ℕ → Option ℕ → Result (List ℕ)
bytes_of (some a) (some b) (some c) (some d) =
    let triple = a * 262144 + b * 4096 + c * 64 + d in
    ok (triple / 65536 % 256 ∷ triple / 256 % 256 ∷ triple % 256 ∷ [])
bytes_of a b c d = fail error

-- The third and the fourth character of the last four may be `=`.
abbrev pub third : Bool → ℕ → ℕ → Option ℕ → Option ℕ
third last c d sextet = if last && (d == pad && c == pad) then some 0 else sextet

abbrev pub fourth : Bool → ℕ → Option ℕ → Option ℕ
fourth last d sextet = if last && d == pad then some 0 else sextet

unfoldable pub decode_quad : Bool → ℕ → ℕ → ℕ → ℕ → Result (List ℕ)
unfolding sextet
decode_quad last a b c d = do
  w ← sextet a
  x ← sextet b
  y ← sextet c
  z ← sextet d
  bytes_of w x (third last c d y) (fourth last d z)

abbrev is_end : List ℕ → Bool
is_end [] = true
is_end (x ∷ xs) = false

-- The loop of `base64_decode`, on a text of whole groups, with all that it would write
unfoldable pub decode_groups : List ℕ → Result (List ℕ)
unfolding decode_quad
decode_groups (a ∷ b ∷ c ∷ d ∷ rest) = do
  bytes ← decode_quad (is_end rest) a b c d
  more ← decode_groups rest
  ok (bytes ++ more)
decode_groups text = ok []

-- `=` at the end beyond two are not read.
abbrev pub unpadded : List ℕ → ℕ
unpadded src = if ltb 2 (pad_count src) then length src - (pad_count src - 2) else length src

-- The length and the bytes that `base64_decode` leaves in a buffer of `size` bytes. The test for `=` of a
-- text of nothing else goes on in front of it.
unfoldable pub base64_decode : ℕ → List ℕ → Result (ℕ × List ℕ)
unfolding base64_decsize decode_groups
base64_decode size src =
    if length src == 0
    then (if ltb 0 size then ok (0, 0 ∷ []) else fail error)
    else if pad_count src == length src
    then fail undefined
    else if not (unpadded src % 4 == 0)
    then fail error
    else if ltb size (base64_decsize src)
    then fail error
    else (do
      bytes ← decode_groups (take (unpadded src) src)
      ok (base64_decsize src, take size bytes))

unfoldable pub base64_enc_malloc : List ℕ → Result (List ℕ)
unfolding base64_encode
base64_enc_malloc src = do
  (dlen, text) ← base64_encode (base64_encsize (length src) + 1) src
  ok text

-- `base64_decsize` looks for `=` in front of a text that has nothing else, the empty text among them.
unfoldable pub base64_dec_malloc : List ℕ → Result (ℕ × List ℕ)
unfolding base64_decode
base64_dec_malloc src =
    if pad_count src == length src
    then fail undefined
    else base64_decode (base64_decsize src + 1) src
