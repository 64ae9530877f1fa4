-- ===== src/Util/Address/Prefix.antt =====
-- The network of an address.
use native.Mathlib.Numerals.{towards_suc}
use native.Mathlib.Nat.{div-div-eq-div-mul, zero-div}
use mopher.Prelude.{
  ℕ, zero, suc, ◌+◌, ◌-◌, ◌*◌, ◌/◌, ◌^◌, ◌<◌, ◌≤◌, false, ◌≡◌, refl, sym, ◌∙◌, arith, List, [], ◌∷◌,
  inl, inr, Bool-cases, ltb, ◌==◌, if◌then◌else◌,
}
use mopher.Prelude.Int.{ℤ, pos, pos_part, ◌-ℤ◌, FitsInt, to_int-fits}
use mopher.Exec.{Result, ok}
use mopher.Vp.{little_endian}
use mopher.Util.Address.{
  Address, inet, inet6, other, clear, clear_bytes, host_bits, util_addr_prefix,
}

abbrev pub Bytes : List ℕ → Type 0
Bytes [] = Unit
Bytes (b ∷ bs) = (b < 256) × Bytes bs

div_scale : (b r q : ℕ) → b < 256 → (b + 256 * r) / (256 * q) ≡ r / q
div_scale b r q h =
    let whole : (b + 256 * r) / 256 ≡ r = omega arith in
    sym (div-div-eq-div-mul (b + 256 * r) 256 q) ∙ rw whole

two_pow-add : (k : ℕ) → 2 ^ (k + 8) ≡ 256 * 2 ^ k
two_pow-add k = simp towards_suc (omega arith)

-- A whole byte and more
clear_above : (k b r : ℕ) → b < 256 → 0 + 256 * clear k r ≡ clear (k + 8) (b + 256 * r)
clear_above k b r h = rw (two_pow-add k) (rw (div_scale b r (2 ^ k) h) (grind arith))

-- A part of one byte
clear_within : (k b r : ℕ) → k ≤ 8 → b < 256 → clear k b + 256 * r ≡ clear k (b + 256 * r)
clear_within zero b r h hb = omega arith
clear_within (suc zero) b r h hb = omega arith
clear_within (suc (suc zero)) b r h hb = omega arith
clear_within (suc (suc (suc zero))) b r h hb = omega arith
clear_within (suc (suc (suc (suc zero)))) b r h hb = omega arith
clear_within (suc (suc (suc (suc (suc zero))))) b r h hb = omega arith
clear_within (suc (suc (suc (suc (suc (suc zero)))))) b r h hb = omega arith
clear_within (suc (suc (suc (suc (suc (suc (suc zero))))))) b r h hb = omega arith
clear_within (suc (suc (suc (suc (suc (suc (suc (suc zero)))))))) b r h hb = omega arith
clear_within (suc (suc (suc (suc (suc (suc (suc (suc (suc k))))))))) b r h hb = absurd (omega arith)

clear_bytes_nothing : (bs : List ℕ) → clear_bytes 0 bs ≡ bs
unfolding clear_bytes
clear_bytes_nothing [] = refl
clear_bytes_nothing (b ∷ bs) = refl

clear_nothing : (n : ℕ) → clear 0 n ≡ n
clear_nothing n = omega arith

zero_cleared : (k : ℕ) → clear k 0 ≡ 0
zero_cleared k = rw (zero-div (2 ^ k)) (omega arith)

pub clear_bytes-value :
    (bits : ℕ) (bs : List ℕ)
    → Bytes bs
    → little_endian (clear_bytes bits bs) ≡ clear bits (little_endian bs)
unfolding little_endian clear_bytes
clear_bytes-value bits [] h = sym (zero_cleared bits)
clear_bytes-value bits (b ∷ bs) (hb, h) = elim (Bool-cases (bits == 0)) [
  | inl e ↦ let none_left : bits ≡ 0 = ground arith in rw none_left (sym (clear_nothing _))
  | inr e ↦ rw e (elim (Bool-cases (ltb 8 bits)) [
    | inl above ↦
        let counted : bits - 8 + 8 ≡ bits = ground arith in
        rw above (
          rw (clear_bytes-value (bits - 8) bs h)
            (rw counted at (clear_above (bits - 8) b (little_endian bs) hb)))
    | inr within ↦
        let last : bits - 8 ≡ 0 = ground arith in
        rw within (
          rw (last, clear_bytes_nothing bs)
            (clear_within bits b (little_endian bs) (ground arith) hb))
  ])
]

-- The number that an address stands for, and how many bits it has
abbrev pub value : Address → ℕ
value (inet a) = a
value (inet6 bytes) = little_endian bytes
value (other family) = 0

abbrev pub width : Address → ℕ
width (inet a) = 32
width (inet6 bytes) = 128
width (other family) = 0

-- How many of so many bits are behind the prefix
abbrev pub bits_behind : ℕ → ℤ → ℕ
bits_behind bits prefix =
    let rest = pos_part (pos bits -ℤ prefix) in if ltb bits rest then bits else rest

-- The prefixes for which the code is defined: their distance from the width is an `int`, and IPv4 needs 2 bits
abbrev pub IsPrefix : Address → ℤ → Type 0
IsPrefix (inet a) prefix = FitsInt (pos 32 -ℤ prefix) × (bits_behind 32 prefix ≤ 30)
IsPrefix (inet6 bytes) prefix = FitsInt (pos 128 -ℤ prefix)
IsPrefix a prefix = Unit

host_bits-behind :
    (bits : ℕ) (prefix : ℤ)
    → FitsInt (pos bits -ℤ prefix)
    → host_bits bits prefix ≡ bits_behind bits prefix
host_bits-behind bits prefix h = rw (to_int-fits (pos bits -ℤ prefix) h)

abbrev pub IsAddress : Address → Type 0
IsAddress (inet6 bytes) = Bytes bytes
IsAddress a = Unit

-- An address of the same family in which the bits behind the prefix are cleared, and all others are kept
abbrev pub Network : Address → ℤ → Result Address → Type 0
Network a prefix r =
    (a' : Address) × (r ≡ ok a')
    × (width a' ≡ width a)
    × (value a' ≡ value a / 2 ^ bits_behind (width a) prefix * 2 ^ bits_behind (width a) prefix)

-- For an IPv6 address and a prefix whose distance 128 - prefix is an int, an IPv4 address and a prefix
-- whose distance 32 - prefix is an int and at most 30, or an address of another family: the code
-- returns an address of the same width whose number is that of the given address with the bits behind
-- the prefix cleared, all of them for a prefix of 0 or less, and all others kept.
pub util_addr_prefix-Network :
    (a : Address) (prefix : ℤ)
    → IsAddress a
    → IsPrefix a prefix
    → Network a prefix (util_addr_prefix a prefix)
unfolding util_addr_prefix
util_addr_prefix-Network (inet a) prefix h (fits_int, p) =
    rw (util_addr_prefix, host_bits-behind 32 prefix fits_int)
      (elim (Bool-cases (bits_behind 32 prefix == 0)) [
        | inl e ↦
            let whole : bits_behind 32 prefix ≡ 0 = ground arith in
            (inet a, rw e, refl, rw whole (sym (clear_nothing a)))
        | inr e ↦
            let fits : ltb 30 (bits_behind 32 prefix) ≡ false = ground arith in
            (inet (clear (bits_behind 32 prefix) a), rw (e, fits), refl, refl)
      ])
util_addr_prefix-Network (inet6 bytes) prefix h p = (
  inet6 (clear_bytes (host_bits 128 prefix) bytes),
  refl,
  refl,
  rw (clear_bytes-value (host_bits 128 prefix) bytes h, host_bits-behind 128 prefix p),
)
util_addr_prefix-Network (other family) prefix h p =
    (other family, refl, refl, sym (zero_cleared _))
