-- ===== src/Hash/Tests.antt =====
-- Known values of the hash functions.
use mopher.Prelude.{◌≡◌, refl, [], ◌∷◌}
use mopher.Hash.{hash_one_at_a_time, hash_djb, hash_chain}

a_byte : hash_one_at_a_time (b'a' ∷ []) ≡ 0xca2e9442
unfolding hash_one_at_a_time
a_byte = refl

djb : hash_djb (1 ∷ 2 ∷ []) ≡ 35
unfolding hash_djb
djb = refl

chain : hash_chain (3 ∷ 4 ∷ []) ≡ 2
unfolding hash_chain
chain = refl
