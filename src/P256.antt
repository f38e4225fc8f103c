-- ===== src/P256.antt =====
-- The P-256 parameters of contracts/stylus/p256-account/src/lib.rs and the checks on scalars and
-- public keys. A constant of type `[u8; 32]` is its list of bytes.
pub mod Values
pub mod Curve
use stylus_mobile_native_aut.Base.{
  ℕ, ◌+◌, ◌-◌, ◌*◌, ◌%◌, ◌^◌, Bool, ◌&&◌, not, List, [], ◌∷◌, ltb, leb, ◌==◌,
}
use stylus_mobile_native_aut.Bytes.{Bytes, from_be_bytes, u256_mod}

-- `P256_FIELD_PRIME`
abbrev pub p256_field_prime : Bytes
p256_field_prime =
    0xFF ∷ 0xFF ∷ 0xFF ∷ 0xFF ∷ 0x00 ∷ 0x00 ∷ 0x00 ∷ 0x01 ∷ 0x00 ∷ 0x00 ∷ 0x00 ∷ 0x00 ∷ 0x00 ∷ 0x00
    ∷ 0x00 ∷ 0x00 ∷ 0x00 ∷ 0x00 ∷ 0x00 ∷ 0x00 ∷ 0xFF ∷ 0xFF ∷ 0xFF ∷ 0xFF ∷ 0xFF ∷ 0xFF ∷ 0xFF
    ∷ 0xFF ∷ 0xFF ∷ 0xFF ∷ 0xFF ∷ 0xFF ∷ []

-- `P256_ORDER_N`
abbrev pub p256_order_n : Bytes
p256_order_n =
    0xFF ∷ 0xFF ∷ 0xFF ∷ 0xFF ∷ 0x00 ∷ 0x00 ∷ 0x00 ∷ 0x00 ∷ 0xFF ∷ 0xFF ∷ 0xFF ∷ 0xFF ∷ 0xFF ∷ 0xFF
    ∷ 0xFF ∷ 0xFF ∷ 0xBC ∷ 0xE6 ∷ 0xFA ∷ 0xAD ∷ 0xA7 ∷ 0x17 ∷ 0x9E ∷ 0x84 ∷ 0xF3 ∷ 0xB9 ∷ 0xCA
    ∷ 0xC2 ∷ 0xFC ∷ 0x63 ∷ 0x25 ∷ 0x51 ∷ []

-- `P256_B`
abbrev pub p256_b : Bytes
p256_b =
    0x5A ∷ 0xC6 ∷ 0x35 ∷ 0xD8 ∷ 0xAA ∷ 0x3A ∷ 0x93 ∷ 0xE7 ∷ 0xB3 ∷ 0xEB ∷ 0xBD ∷ 0x55 ∷ 0x76 ∷ 0x98
    ∷ 0x86 ∷ 0xBC ∷ 0x65 ∷ 0x1D ∷ 0x06 ∷ 0xB0 ∷ 0xCC ∷ 0x53 ∷ 0xB0 ∷ 0xF6 ∷ 0x3B ∷ 0xCE ∷ 0x3C
    ∷ 0x3E ∷ 0x27 ∷ 0xD2 ∷ 0x60 ∷ 0x4B ∷ []

-- `P256_HALF_ORDER`
abbrev pub p256_half_order : Bytes
p256_half_order =
    0x7F ∷ 0xFF ∷ 0xFF ∷ 0xFF ∷ 0x80 ∷ 0x00 ∷ 0x00 ∷ 0x00 ∷ 0x7F ∷ 0xFF ∷ 0xFF ∷ 0xFF ∷ 0xFF ∷ 0xFF
    ∷ 0xFF ∷ 0xFF ∷ 0xDE ∷ 0x73 ∷ 0x7D ∷ 0x56 ∷ 0xD3 ∷ 0x8B ∷ 0xCF ∷ 0x42 ∷ 0x79 ∷ 0xDC ∷ 0xE5
    ∷ 0x61 ∷ 0x7E ∷ 0x31 ∷ 0x92 ∷ 0xA8 ∷ []

-- `U256::mul_mod` and `U256::add_mod`: the exact product and sum, reduced.
abbrev pub mul_mod : ℕ → ℕ → ℕ → ℕ
mul_mod a b p = a * b % p

abbrev pub add_mod : ℕ → ℕ → ℕ → ℕ
add_mod a b p = (a + b) % p

-- `-` on `U256` wraps.
abbrev pub sub_u256 : ℕ → ℕ → ℕ
sub_u256 a b = (a + u256_mod - b) % u256_mod

unfoldable pub is_low_s : ℕ → Bool
is_low_s s = not (s == 0) && leb s (from_be_bytes p256_half_order)

unfoldable pub is_valid_scalar : ℕ → Bool
is_valid_scalar c = not (c == 0) && ltb c (from_be_bytes p256_order_n)

unfoldable pub is_valid_pubkey_component : ℕ → Bool
is_valid_pubkey_component c = not (c == 0) && ltb c (from_be_bytes p256_field_prime)

unfoldable pub is_on_curve : ℕ → ℕ → Bool
is_on_curve x y =
    let p = from_be_bytes p256_field_prime in
    let b = from_be_bytes p256_b in
    let y2 = mul_mod y y p in
    let x3 = mul_mod (mul_mod x x p) x p in
    let three_x = mul_mod x 3 p in
    let rhs = add_mod (add_mod x3 (sub_u256 p three_x) p) b p in y2 == rhs

unfoldable pub is_valid_pubkey : ℕ → ℕ → Bool
is_valid_pubkey x y = is_valid_pubkey_component x && is_valid_pubkey_component y && is_on_curve x y
