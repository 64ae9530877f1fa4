-- ===== src/Exp/Numbers.antt =====
-- The arithmetic of expressions on integers (`exp_math_int` of src/exp.c), in a `long` of 64 bits.
use Prim.Native.Nat.{◌+◌, ◌*◌, ◌/◌, ◌%◌}
use native.Mathlib.Omega.{arith}
use native.Mathlib.Nat.{div-add-mod'}
use mopher.Prelude.{
  ◌≡◌, ◌≢◌, ◌⊎◌, ◌^◌, inl, inr, refl, sym, ℕ, zero, suc, ◌<◌, ◌≤◌, Bool, Bool-cases, true, false,
  none, some, if◌then◌else◌,
}
use mopher.Prelude.Int.{
  long_min, ℤ, pos, negsuc, ◌+ℤ◌, ◌*ℤ◌, ◌/ℤ◌, ◌%ℤ◌, eqb_ℤ, FitsLong, signed, xor, abs, is_negative,
  sub_ℕ, pos_part, neg_part, +ℤ_parts, eq_of_parts,
}
use mopher.Var.{var, int}
use mopher.Exec.{ok, fail, undefined}
use mopher.Exp.{div, mod_op, Value, traps, exp_math_int}

abbrev pub integer : ℤ → Value
integer n = ok (some (var none (int (some n))))

sub_ℕ_parts : (a b : ℕ) → pos_part (sub_ℕ a b) + b ≡ neg_part (sub_ℕ a b) + a
sub_ℕ_parts a b = ground arith

signed_parts :
    (s : Bool) (n : ℕ)
    → (pos_part (signed s n) ≡ (if s then 0 else n))
      × (neg_part (signed s n) ≡ (if s then n else 0))
signed_parts true n = (ground arith, ground arith)
signed_parts false n = (refl, refl)

product_parts :
    (a b : ℤ) {p n : ℕ}
    → (pos_part a ≡ p) × (neg_part a ≡ n)
    → pos_part (a *ℤ b) + (p * neg_part b + n * pos_part b)
      ≡ neg_part (a *ℤ b) + (p * pos_part b + n * neg_part b)
unfolding ◌*ℤ◌
product_parts a b {p} {n} (h, k) = rw (sym h) (
    rw (sym k) (
      sub_ℕ_parts (pos_part a * pos_part b + neg_part a * neg_part b)
        (pos_part a * neg_part b + neg_part a * pos_part b)))

-- What a quotient and a remainder of numbers make of two integers with those distances from 0
abbrev Recombined : (s t : Bool) (a b : ℤ) (q m : ℕ) → Type 0
Recombined s t a b q m = ((signed s q) *ℤ b) +ℤ (signed t m) ≡ a

recombine :
    (s t : Bool) (a b : ℤ) (q m : ℕ)
    → pos_part a + ((if s then q * pos_part b else q * neg_part b) + (if t then m else 0))
      ≡ neg_part a + ((if s then q * neg_part b else q * pos_part b) + (if t then 0 else m))
    → Recombined s t a b q m
recombine s t a b q m h =
    let product = product_parts (signed s q) b (signed_parts s q) in
    let sum = +ℤ_parts (signed s q *ℤ b) (signed t m) in
    let rest = signed_parts t m in eq_of_parts (signed s q *ℤ b +ℤ signed t m) a (ground arith)

division :
    (a b : ℤ)
    → Recombined
        (xor (is_negative a) (is_negative b))
        (is_negative a)
        a
        b
        (abs a / abs b)
        (abs a % abs b)
division (pos n) (pos k) =
    recombine false false (pos n) (pos k) (abs (pos n) / abs (pos k)) (abs (pos n) % abs (pos k))
      (ground (arith, div-add-mod' (abs (pos n)) (abs (pos k))))
division (pos n) (negsuc k) =
    recombine true false (pos n) (negsuc k) (abs (pos n) / abs (negsuc k))
      (abs (pos n) % abs (negsuc k)) (ground (arith, div-add-mod' (abs (pos n)) (abs (negsuc k))))
division (negsuc n) (pos k) =
    recombine true true (negsuc n) (pos k) (abs (negsuc n) / abs (pos k))
      (abs (negsuc n) % abs (pos k)) (ground (arith, div-add-mod' (abs (negsuc n)) (abs (pos k))))
division (negsuc n) (negsuc k) =
    recombine false true (negsuc n) (negsuc k) (abs (negsuc n) / abs (negsuc k))
      (abs (negsuc n) % abs (negsuc k))
      (ground (arith, div-add-mod' (abs (negsuc n)) (abs (negsuc k))))

quotient_remainder : (a b : ℤ) → ((a /ℤ b) *ℤ b) +ℤ (a %ℤ b) ≡ a
unfolding ◌/ℤ◌ ◌%ℤ◌
quotient_remainder a b = division a b

-- The remainder is smaller than the divisor, and has the sign of the dividend.
abbrev pub IsRemainder : ℤ → ℤ → ℤ → Type 0
IsRemainder a b m = (abs m < abs b) × (m ≢ pos 0 → is_negative m ≡ is_negative a)

abs-signed : (s : Bool) (n : ℕ) → abs (signed s n) ≡ n
abs-signed true n = ground arith
abs-signed false n = omega arith

signed-negative : (s : Bool) (n : ℕ) → signed s n ≢ pos 0 → is_negative (signed s n) ≡ s
signed-negative true zero h = absurd (h refl)
signed-negative true (suc n) h = ground arith
signed-negative false n h = refl

rest-IsRemainder : (a b : ℤ) → eqb_ℤ b (pos 0) ≡ false → IsRemainder a b (a %ℤ b)
unfolding ◌%ℤ◌
rest-IsRemainder a b nonzero =
    let divisor : 0 < abs b = ground arith in
    (
      rw (abs-signed (is_negative a) (abs a % abs b)) (omega (arith, divisor)),
      signed-negative (is_negative a) (abs a % abs b),
    )

half_at_most : (n d : ℕ) → 2 ≤ d → 2 * (n / d) ≤ n
half_at_most n zero h = absurd (omega (arith, h))
half_at_most n (suc zero) h = absurd (omega (arith, h))
half_at_most n (suc (suc e)) h = grind (arith, div-add-mod' n (suc (suc e)))

signed-FitsLong : (s : Bool) (n : ℕ) → n < 2 ^ 63 → FitsLong (signed s n)
signed-FitsLong true n h = ground arith
signed-FitsLong false n h = omega (arith, h)

quotient-FitsLong : (a b : ℤ) → FitsLong a → traps a b ≡ false → FitsLong (a /ℤ b)
unfolding ◌/ℤ◌
quotient-FitsLong a (pos zero) fits h = absurd (ground arith)
quotient-FitsLong (pos n) (pos (suc zero)) fits h = ground arith
quotient-FitsLong (negsuc n) (pos (suc zero)) fits h = ground arith
quotient-FitsLong (pos n) (negsuc zero) fits h = ground arith
quotient-FitsLong (negsuc n) (negsuc zero) fits h = ground arith
quotient-FitsLong a (pos (suc (suc k))) fits h =
    signed-FitsLong (xor (is_negative a) false) (abs a / abs (pos (suc (suc k))))
      (omega (arith, half_at_most (abs a) (abs (pos (suc (suc k)))) (omega arith), fits))
quotient-FitsLong a (negsuc (suc k)) fits h =
    signed-FitsLong (xor (is_negative a) true) (abs a / abs (negsuc (suc k)))
      (omega (arith, half_at_most (abs a) (abs (negsuc (suc k))) (omega arith), fits))

-- The divisions that have no result
abbrev pub HasNoQuotient : ℤ → ℤ → Type 0
HasNoQuotient a b = (b ≡ pos 0) ⊎ ((b ≡ negsuc 0) × (a ≡ long_min))

abbrev pub Divided : ℤ → ℤ → Value → Value → Type 0
Divided a b quotient rest =
    (HasNoQuotient a b × (quotient ≡ fail undefined) × (rest ≡ fail undefined))
    ⊎ ((q : ℤ) × ((m : ℤ) × ((quotient ≡ integer q)
            × (rest ≡ integer m)
            × ((q *ℤ b) +ℤ m ≡ a)
            × IsRemainder a b m
            × FitsLong q)))

traps-HasNoQuotient : (a b : ℤ) → traps a b ≡ true → HasNoQuotient a b
traps-HasNoQuotient a b h = elim (Bool-cases (eqb_ℤ b (pos 0))) [
  | inl zero_b ↦ inl (eq_of_parts b (pos 0) (ground arith))
  | inr e ↦ inr (eq_of_parts b (negsuc 0) (ground arith), eq_of_parts a long_min (ground arith))
]

divides-nonzero : (a b : ℤ) → traps a b ≡ false → eqb_ℤ b (pos 0) ≡ false
divides-nonzero a b h = ground arith

-- For two integers of which the dividend is a long: by 0, and by -1 if the dividend is LONG_MIN,
-- neither / nor % has a result; and otherwise there are a quotient, which is a long, and a remainder,
-- which is smaller than the divisor and has the dividend's sign where it is not 0, such that quotient
-- times divisor plus remainder is the dividend.
pub exp_math_int-Divided :
    (a b : ℤ)
    → FitsLong a
    → Divided a b (exp_math_int div (some a) (some b)) (exp_math_int mod_op (some a) (some b))
unfolding exp_math_int
exp_math_int-Divided a b fits = elim (Bool-cases (traps a b)) [
  | inl e ↦ rw e (inl (traps-HasNoQuotient a b e, refl, refl))
  | inr e ↦ rw e (
      inr (
        a /ℤ b,
        (
          a %ℤ b,
          (
            refl,
            refl,
            quotient_remainder a b,
            rest-IsRemainder a b (divides-nonzero a b e),
            quotient-FitsLong a b fits e,
          ),
        ),
      ))
]
