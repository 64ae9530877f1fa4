-- ===== src/Util/Address/Tests.antt =====
-- Addresses of documentation networks.
use Prim.Native.Nat.{compare, Ordering}
use mopher.Prelude.{ℕ, ◌≡◌, ◌≢◌, refl, arith, some, [], ◌∷◌}
use mopher.Prelude.Int.{pos, negsuc, ◌-ℤ◌, to_int, FitsInt}
use mopher.Exec.{ok, fail, undefined}
use mopher.Util.Address.{Address, inet, inet6, first_of, sign, util_addr_prefix, util_addrcmp}
use mopher.Util.Address.Prefix.{Network, value, util_addr_prefix-Network}
use mopher.Util.Address.Order.{IsFormed, util_addrcmp-value}

-- 2001:db8::a:ff01, from its last byte
abbrev client : Address
client =
    inet6 (0x01 ∷ 0xff ∷ 0x0a ∷ 0 ∷ 0 ∷ 0 ∷ 0 ∷ 0 ∷ 0 ∷ 0 ∷ 0 ∷ 0 ∷ 0xb8 ∷ 0x0d ∷ 0x01 ∷ 0x20 ∷ [])

distance : FitsInt (pos 128 -ℤ pos 116)
unfolding ◌-ℤ◌
distance = omega arith

util_addr_prefix-Network_example : Network client (pos 116) (util_addr_prefix client (pos 116))
util_addr_prefix-Network_example = util_addr_prefix-Network client (pos 116) (omega arith) distance

prefixed :
    util_addr_prefix client (pos 116)
    ≡ ok (
        inet6
          (0 ∷ 0xf0 ∷ 0x0a ∷ 0 ∷ 0 ∷ 0 ∷ 0 ∷ 0 ∷ 0 ∷ 0 ∷ 0 ∷ 0 ∷ 0xb8 ∷ 0x0d ∷ 0x01 ∷ 0x20 ∷ []))
unfolding util_addr_prefix ◌-ℤ◌ to_int
prefixed = refl

-- 192.0.2.77/24
network_of : util_addr_prefix (inet 0xc000024d) (pos 24) ≡ ok (inet 0xc0000200)
unfolding util_addr_prefix ◌-ℤ◌ to_int
network_of = refl

-- The shift leaves an `int`.
no_prefix : util_addr_prefix (inet 0xc000024d) (pos 0) ≡ fail undefined
unfolding util_addr_prefix ◌-ℤ◌ to_int
no_prefix = refl

-- The distance from the width leaves an `int`, and the address stays.
far_prefix : util_addr_prefix client (negsuc 2147483599) ≡ ok client
unfolding util_addr_prefix ◌-ℤ◌ to_int
far_prefix = refl

-- 2001:db8::b:0
abbrev other_client : Address
other_client =
    inet6 (0 ∷ 0 ∷ 0x0b ∷ 0 ∷ 0 ∷ 0 ∷ 0 ∷ 0 ∷ 0 ∷ 0 ∷ 0 ∷ 0 ∷ 0xb8 ∷ 0x0d ∷ 0x01 ∷ 0x20 ∷ [])

families_differ : ◌≢◌ {A = ℕ} 2 10
families_differ h = absurd (omega arith)

client-IsFormed : IsFormed 2 10 client
client-IsFormed = omega arith

other_client-IsFormed : IsFormed 2 10 other_client
other_client-IsFormed = omega arith

util_addrcmp-value_example :
    util_addrcmp 2 10 (some client) (some other_client)
    ≡ sign (first_of Ordering.eq (compare (value client) (value other_client)))
util_addrcmp-value_example =
    util_addrcmp-value 2 10 client other_client families_differ client-IsFormed
      other_client-IsFormed

compared : util_addrcmp 2 10 (some client) (some other_client) ≡ negsuc 0
unfolding util_addrcmp
compared = refl
