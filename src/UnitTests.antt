-- ===== src/UnitTests.antt =====
-- The unit tests of contracts/stylus/p256-account/src/lib.rs, and in Parser those of
-- contracts/stylus/devnode-tests/src/main.rs, each as a function into `Bool` that is
-- true if the test passes, and what they share: the fixtures and the assertions. keccak-256 is a
-- parameter, as elsewhere.
pub mod Build
pub mod Constants
pub mod Signatures
pub mod Requests
pub mod Curve
pub mod Layouts
pub mod Parser
pub mod Separation
pub mod TypeHashes
pub mod Passing
pub mod Selectors
use Prim.Native.String.{String}
use stylus_mobile_native_aut.Base.{
  ℕ, ◌+◌, ◌-◌, ◌*◌, ◌%◌, Bool, true, false, ◌&&◌, ◌++◌, List, [], ◌∷◌, Option, none, some, ok, err,
  panic, leb, ◌==◌, if◌then◌else◌, replicate,
}
use stylus_mobile_native_aut.Bytes.{Bytes, zeros, slice, from_be_bytes, u256_mod}
use stylus_mobile_native_aut.P256.{p256_field_prime, p256_order_n, p256_half_order}
use stylus_mobile_native_aut.Errors.{
  P256AccountError, Checked, invalid_public_key, invalid_signature, invalid_r, invalid_s, high_s,
}
use stylus_mobile_native_aut.Signature.Shim.{Cells}
use stylus_mobile_native_aut.Receivers.{bytes_eq}
use stylus_mobile_native_aut.Harness.{as_bytes}

-- `matches!(e, P256AccountError::...)`, the variants by their position.
abbrev pub variant : P256AccountError → ℕ
variant invalid_public_key = 0
variant (P256AccountError.invalid_signature_length got) = 1
variant invalid_signature = 2
variant invalid_r = 3
variant invalid_s = 4
variant (P256AccountError.nonce_mismatch expected got) = 5
variant high_s = 6
variant P256AccountError.unknown_selector = 7
variant P256AccountError.reentrancy = 8
variant (P256AccountError.invalid_batch calls values datas) = 9
variant (P256AccountError.batch_call_failed index return_data) = 10

-- `matches!(r, Err(P256AccountError::...))`
abbrev pub fails_as : P256AccountError → Checked (Unit {0}) → Bool
fails_as e (err f) = variant e == variant f
fails_as e _ = false

-- The error is this one, fields included.
abbrev pub fails_with_nonces : ℕ → ℕ → Checked (Unit {0}) → Bool
fails_with_nonces expected got (err (P256AccountError.nonce_mismatch e g)) =
    (e == expected) && (g == got)
fails_with_nonces expected got _ = false

abbrev pub fails_with_length : ℕ → Checked (Unit {0}) → Bool
fails_with_length got (err (P256AccountError.invalid_signature_length g)) = g == got
fails_with_length got _ = false

abbrev pub is_err : Checked (Unit {0}) → Bool
is_err (err e) = true
is_err _ = false

-- `+` and `*` on `U256` wrap.
abbrev pub add_u256 : ℕ → ℕ → ℕ
add_u256 a b = (a + b) % u256_mod

abbrev pub mul_u256 : ℕ → ℕ → ℕ
mul_u256 a b = a * b % u256_mod

abbrev pub prime : ℕ
prime = from_be_bytes p256_field_prime

abbrev pub order : ℕ
order = from_be_bytes p256_order_n

abbrev pub half_order : ℕ
half_order = from_be_bytes p256_half_order

-- The bytes of the last input in a range are these.
abbrev pub saw : ℕ → ℕ → Bytes → Cells → Bool
saw lo hi expected cells = elim cells.last_input [
  | none ↦ false
  | some seen ↦ bytes_eq (slice lo hi seen) expected
]

abbrev pub saw_nothing : Cells → Bool
saw_nothing cells = elim cells.last_input [ none ↦ true | some seen ↦ false ]

-- `Address::from([b; 20])` and `B256::from([b; 32])`.
abbrev pub address_of : ℕ → ℕ
address_of b = from_be_bytes (replicate 20 b)

abbrev pub b256_of : ℕ → ℕ
b256_of b = from_be_bytes (replicate 32 b)

-- `well_formed_sig`, as it is filled: byte 31 and byte 63 are 1.
abbrev pub well_formed_sig : Bytes
well_formed_sig = zeros 31 ++ (1 ∷ (zeros 31 ++ (1 ∷ [])))

-- `u8::from_str_radix` of a digit; the fixtures hold lower-case digits only.
abbrev pub digit : ℕ → ℕ
digit c = if leb b'a' c then c - b'a' + 10 else c - b'0'

abbrev pub pairs : Bytes → Bytes
pairs (high ∷ (low ∷ s)) = (digit high * 16 + digit low) ∷ pairs s
pairs _ = []

unfoldable pub u : String → ℕ
u hex = from_be_bytes (pairs (as_bytes hex))

abbrev pub gx : String
gx = "6b17d1f2e12c4247f8bce6e563a440f277037d812deb33a0f4a13945d898c296"

abbrev pub gy : String
gy = "4fe342e2fe1a7f9b8ee7eb4a7c0f9e162bce33576b315ececbb6406837bf51f5"

abbrev pub g2x : String
g2x = "7cf27b188d034f7e8a52380304b51ac3c08969e277f21b35a60b48fc47669978"

abbrev pub g2y : String
g2y = "07775510db8ed040293d9ac69f7430dbba7dade63ce982299e04b79d227873d1"

-- A suite passes if each of its tests does.
abbrev pub all_pass : List Bool → Bool
all_pass [] = true
all_pass (t ∷ ts) = t && all_pass ts
