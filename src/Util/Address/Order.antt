-- ===== src/Util/Address/Order.antt =====
-- The order of addresses.
use Prim.Native.Nat.{compare, Ordering}
use mopher.Prelude.{
  ℕ, ◌+◌, ◌*◌, ◌<◌, ◌≡◌, ◌≢◌, ap, refl, sym, ◌∙◌, arith, some, List, [], ◌∷◌, length,
}
use mopher.Vp.{little_endian}
use mopher.Util.Address.{Address, inet, inet6, other, family, first_of, memcmp, sign, util_addrcmp}
use mopher.Util.Address.Prefix.{Bytes, value}

compare_bytes :
    (x y m n : ℕ)
    → x < 256
    → y < 256
    → first_of (compare m n) (compare x y) ≡ compare (x + 256 * m) (y + 256 * n)
compare_bytes x y m n h k = ground arith

memcmp-value :
    (xs ys : List ℕ)
    → Bytes xs
    → Bytes ys
    → length xs ≡ length ys
    → memcmp xs ys ≡ compare (little_endian xs) (little_endian ys)
unfolding memcmp little_endian
memcmp-value [] [] h k e = refl
memcmp-value [] (y ∷ ys) h k e = absurd (omega arith)
memcmp-value (x ∷ xs) [] h k e = absurd (omega arith)
memcmp-value (x ∷ xs) (y ∷ ys) (hx, h) (hy, k) e =
    rw (memcmp-value xs ys h k (omega arith))
      (compare_bytes x y (little_endian xs) (little_endian ys) hx hy)

first_of_ne :
    (m n : ℕ) (p q : Ordering) → m ≢ n → first_of (compare m n) p ≡ first_of (compare m n) q
first_of_ne m n p q h = ground arith

module _ (af_inet af_inet6 : ℕ) where
  abbrev pub IsFormed : Address → Type 0
  IsFormed (inet a) = Unit
  IsFormed (inet6 bytes) = Bytes bytes × (length bytes ≡ 16)
  IsFormed (other f) = (f ≢ af_inet) × (f ≢ af_inet6)

  -- For two addresses the result is that of the numbers of their families and, within a family of addresses,
  -- that of the numbers that they stand for.
  pub util_addrcmp-value :
      (a b : Address)
      → af_inet ≢ af_inet6
      → IsFormed a
      → IsFormed b
      → util_addrcmp af_inet af_inet6 (some a) (some b)
        ≡ sign (
            first_of
              (compare (family af_inet af_inet6 a) (family af_inet af_inet6 b))
              (compare (value a) (value b)))
  unfolding util_addrcmp
  util_addrcmp-value (inet a) (inet b) ne h k = refl
  util_addrcmp-value (inet a) (inet6 ys) ne h k = ap sign (first_of_ne af_inet af_inet6 _ _ ne)
  util_addrcmp-value (inet a) (other g) ne h (k, l) =
      ap sign (first_of_ne af_inet g _ _ (λ e. k (sym e)))
  util_addrcmp-value (inet6 xs) (inet b) ne h k =
      ap sign (first_of_ne af_inet6 af_inet _ _ (λ e. ne (sym e)))
  util_addrcmp-value (inet6 xs) (inet6 ys) ne (h, n) (k, m) =
      rw (memcmp-value xs ys h k (n ∙ sym m))
  util_addrcmp-value (inet6 xs) (other g) ne h (k, l) =
      ap sign (first_of_ne af_inet6 g _ _ (λ e. l (sym e)))
  util_addrcmp-value (other f) (inet b) ne (h, j) k = ap sign (first_of_ne f af_inet _ _ h)
  util_addrcmp-value (other f) (inet6 ys) ne (h, j) k = ap sign (first_of_ne f af_inet6 _ _ j)
  util_addrcmp-value (other f) (other g) ne h k = refl
