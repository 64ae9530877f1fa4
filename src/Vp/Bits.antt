-- ===== src/Vp/Bits.antt =====
-- The bits of the null fields: a bit that is set is set, and the others stay.
use mopher.Prelude.{
  ℕ, zero, suc, ◌+◌, ◌*◌, ◌/◌, ◌%◌, ◌<◌, ◌≡◌, refl, true, false, arith, ◌==◌, if◌then◌else◌,
}
use mopher.Vp.{vp_field_is_null, vp_set_null}

pub no_bits : (n : ℕ) → vp_field_is_null 0 n ≡ false
unfolding vp_field_is_null
no_bits zero = refl
no_bits (suc n) = no_bits n

halves : (a b : ℕ) → b < 2 → (a * 2 + b) / 2 ≡ a
halves a b h = omega arith

pub field_is_null-set_null :
    (fields n j : ℕ)
    → vp_field_is_null (vp_set_null fields n) j
      ≡ (if j == n then true else vp_field_is_null fields j)
unfolding vp_field_is_null vp_set_null
field_is_null-set_null fields zero zero = ground arith
field_is_null-set_null fields zero (suc j) =
    let same : (if fields % 2 == 1 then fields else fields + 1) / 2 ≡ fields / 2 = ground arith in
    rw same (ground arith)
field_is_null-set_null fields (suc n) zero =
    let low : (vp_set_null (fields / 2) n * 2 + fields % 2) % 2 ≡ fields % 2 = omega arith in
    rw low (ground arith)
field_is_null-set_null fields (suc n) (suc j) =
    let rest : (vp_set_null (fields / 2) n * 2 + fields % 2) / 2 ≡ vp_set_null (fields / 2) n =
      omega arith in
    rw (rest, field_is_null-set_null (fields / 2) n j) (ground arith)
