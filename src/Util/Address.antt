-- ===== src/Util/Address.antt =====
-- Addresses of clients (src/util.c). The bytes of an IPv6 address stand from the last one to the first, so
-- that the loops go along the list; an IPv4 address is the number that `ntohl` returns. The numbers of the
-- address families are parameters.
pub mod Prefix
pub mod Order
mod Tests
use Prim.Native.Nat.{compare, Ordering}
use mopher.Prelude.{
  ℕ, ◌-◌, ◌*◌, ◌/◌, ◌^◌, Bool, true, false, not, Option, none, some, List, [], ◌∷◌, ltb, ◌==◌,
  if◌then◌else◌,
}
use mopher.Prelude.Int.{ℤ, pos, negsuc, pos_part, ◌-ℤ◌, ltb_ℤ, to_int}
use mopher.Exec.{Result, ok, fail, undefined}

pub data Address : Type 0 where
  inet : ℕ → Address
  inet6 : List ℕ → Address
  other : ℕ → Address

-- `x & ~((1 << bits) - 1)`
abbrev pub clear : ℕ → ℕ → ℕ
clear bits x = x / 2 ^ bits * 2 ^ bits

unfoldable pub clear_bytes : ℕ → List ℕ → List ℕ
clear_bytes bits [] = []
clear_bytes bits (b ∷ bs) =
    let rest = clear_bytes (bits - 8) bs in
    if bits == 0 then b ∷ bs else (if ltb 8 bits then 0 else clear bits b) ∷ rest

-- The number of bits that are cleared: `width - prefix` in an `int`, and `width` at most
abbrev pub host_bits : ℕ → ℤ → ℕ
host_bits width prefix =
    let bits = pos_part (to_int (pos width -ℤ prefix)) in if ltb width bits then width else bits

-- For 31 and 32 bits, `(1 << bits) - 1` is no `int`.
unfoldable pub util_addr_prefix : Address → ℤ → Result Address
unfolding clear_bytes
util_addr_prefix (inet a) prefix =
    let bits = host_bits 32 prefix in
    if bits == 0
    then ok (inet a)
    else if ltb 30 bits
    then fail undefined
    else ok (inet (clear bits a))
util_addr_prefix (inet6 bytes) prefix = ok (inet6 (clear_bytes (host_bits 128 prefix) bytes))
util_addr_prefix (other family) prefix = ok (other family)

unfoldable pub util_addr_ipv6 : Option Address → Bool
util_addr_ipv6 (some (inet6 bytes)) = true
util_addr_ipv6 a = false

-- A comparison, and the one that decides where it finds no difference
abbrev pub first_of : Ordering → Ordering → Ordering
first_of Ordering.lt last = Ordering.lt
first_of Ordering.gt last = Ordering.gt
first_of Ordering.eq last = last

-- `memcmp`, which the first different byte decides
unfoldable pub memcmp : List ℕ → List ℕ → Ordering
memcmp [] [] = Ordering.eq
memcmp [] (y ∷ ys) = Ordering.lt
memcmp (x ∷ xs) [] = Ordering.gt
memcmp (x ∷ xs) (y ∷ ys) = let rest = memcmp xs ys in first_of rest (compare x y)

abbrev pub sign : Ordering → ℤ
sign Ordering.lt = negsuc 0
sign Ordering.eq = pos 0
sign Ordering.gt = pos 1

module _ (af_inet af_inet6 : ℕ) where
  abbrev pub family : Address → ℕ
  family (inet a) = af_inet
  family (inet6 bytes) = af_inet6
  family (other f) = f

  -- Two addresses of one family
  abbrev pub compare_same : Address → Address → Ordering
  compare_same (inet a) (inet b) = compare a b
  compare_same (inet6 xs) (inet6 ys) = memcmp xs ys
  compare_same _ _ = Ordering.eq

  unfoldable pub util_addrcmp : Option Address → Option Address → ℤ
  unfolding memcmp
  util_addrcmp none none = pos 0
  util_addrcmp none (some b) = negsuc 0
  util_addrcmp (some a) none = pos 1
  util_addrcmp (some a) (some b) =
      sign (first_of (compare (family a) (family b)) (compare_same a b))
