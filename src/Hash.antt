-- ===== src/Hash.antt =====
-- Hash functions (src/hash.c) of the bytes of a key. `char` is signed, so that a byte from 128 on is a
-- negative number; sums and shifts are those of `uint32_t`, and of `unsigned long` in the others.
mod Tests
use Prim.Native.Nat.{bit_xor}
use mopher.Prelude.{ℕ, ◌+◌, ◌-◌, ◌*◌, ◌/◌, ◌%◌, ◌^◌, List, [], ◌∷◌, ltb, if◌then◌else◌}

abbrev sign_extended : ℕ → ℕ
sign_extended c = if ltb c 128 then c else 2 ^ 32 - 256 + c

unfoldable pub mix : ℕ → ℕ → ℕ
mix hash c =
    let added = (hash + sign_extended c) % 2 ^ 32 in
    let shifted = (added + added * 2 ^ 10) % 2 ^ 32 in bit_xor shifted (shifted / 2 ^ 6)

unfoldable pub mix_all : ℕ → List ℕ → ℕ
unfolding mix
mix_all hash [] = hash
mix_all hash (c ∷ key) = mix_all (mix hash c) key

unfoldable pub hash_one_at_a_time : List ℕ → ℕ
unfolding mix_all
hash_one_at_a_time key =
    let hash = mix_all 0 key in
    let shifted = (hash + hash * 2 ^ 3) % 2 ^ 32 in
    let mixed = bit_xor shifted (shifted / 2 ^ 11) in (mixed + mixed * 2 ^ 15) % 2 ^ 32

unfoldable pub djb_from : ℕ → List ℕ → ℕ
djb_from h [] = h
djb_from h (c ∷ key) = djb_from ((33 * h + c) % 2 ^ 64) key

unfoldable pub hash_djb : List ℕ → ℕ
unfolding djb_from
hash_djb key = djb_from 0 key

unfoldable pub sum_from : ℕ → List ℕ → ℕ
sum_from h [] = h
sum_from h (c ∷ key) = sum_from ((h + c) % 2 ^ 64) key

unfoldable pub hash_test : List ℕ → ℕ
unfolding sum_from
hash_test key = sum_from 0 key

unfoldable pub hash_chain : List ℕ → ℕ
unfolding hash_test
hash_chain key = hash_test key % 5
