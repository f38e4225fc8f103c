-- ===== src/P256/Values.antt =====
-- The numbers that the constants spell, and the ranges that the scalar checks decide.
use stylus_mobile_native_aut.Base.{ℕ, ◌/◌, ◌≤◌, ◌<◌, ◌≡◌, refl, ◌↔◌, true, arith}
use stylus_mobile_native_aut.Bytes.{from_be_bytes}
use stylus_mobile_native_aut.P256.{
  p256_field_prime, p256_order_n, p256_half_order, is_low_s, is_valid_scalar,
  is_valid_pubkey_component,
}

-- The curve's prime, p = 2^256 − 2^224 + 2^192 + 2^96 − 1.
abbrev pub prime : ℕ
prime = 0xFFFFFFFF00000001000000000000000000000000FFFFFFFFFFFFFFFFFFFFFFFF

-- The order of its group.
abbrev pub order : ℕ
order = 0xFFFFFFFF00000000FFFFFFFFFFFFFFFFBCE6FAADA7179E84F3B9CAC2FC632551

abbrev pub coefficient : ℕ
coefficient = 0x5AC635D8AA3A93E7B3EBBD55769886BC651D06B0CC53B0F63BCE3C3E27D2604B

pub field_prime_value : from_be_bytes p256_field_prime ≡ prime
unfolding from_be_bytes
field_prime_value = refl

pub order_value : from_be_bytes p256_order_n ≡ order
unfolding from_be_bytes
order_value = refl

pub half_order_value : from_be_bytes p256_half_order ≡ order / 2
unfolding from_be_bytes
half_order_value = refl

-- `is_valid_scalar` accepts exactly the numbers in (0, n).
pub is_valid_scalar_iff : (c : ℕ) → (is_valid_scalar c ≡ true) ↔ (0 < c) × (c < order)
unfolding is_valid_scalar
is_valid_scalar_iff c = rw order_value (ground arith)

-- `is_low_s` accepts exactly the numbers in (0, n/2].
pub is_low_s_iff : (s : ℕ) → (is_low_s s ≡ true) ↔ (0 < s) × (s ≤ order / 2)
unfolding is_low_s
is_low_s_iff s = rw half_order_value (ground arith)

pub is_valid_pubkey_component_iff :
    (c : ℕ) → (is_valid_pubkey_component c ≡ true) ↔ (0 < c) × (c < prime)
unfolding is_valid_pubkey_component
is_valid_pubkey_component_iff c = rw field_prime_value (ground arith)
