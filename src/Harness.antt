-- ===== src/Harness.antt =====
-- The digest builders of the integration harness, contracts/stylus/devnode-tests/src/main.rs, which
-- sign what the account checks. Here a digest, a key coordinate, a `uint256` and an address are byte
-- arrays; `keccak256` is a parameter.
pub mod Digests
pub mod Receipt
pub mod Output
pub mod Runner
pub mod Shell
pub mod Keys
pub mod Node
pub mod Scenarios
pub mod Main
pub mod Session
use Prim.Native.Char.{code}
use Prim.Native.Nat.{bit_or}
use Prim.Native.String.{String}
use stylus_mobile_native_aut.Base.{
  ℕ, zero, suc, ◌+◌, ◌-◌, ◌*◌, ◌%◌, ◌&&◌, List, [], ◌∷◌, ◌++◌, leb, if◌then◌else◌,
}
use stylus_mobile_native_aut.Bytes.{Bytes, to_be_bytes, zeros, copy_from_slice}

-- `as_bytes` of an ASCII string.
abbrev pub as_bytes : String → Bytes
as_bytes String.[] = []
as_bytes (String.◌∷◌ c s) = code c ∷ as_bytes s

unfoldable pub hex_nibble : ℕ → ℕ
hex_nibble c =
    if leb b'0' c && leb c b'9'
    then c - b'0'
    else if leb b'a' c && leb c b'f'
    then c - b'a' + 10
    else if leb b'A' c && leb c b'F'
    then c - b'A' + 10
    else 0

-- The loop of `const_hex_to_32` with `k` bytes to go; a shorter text does not compile.
unfoldable pub hex_loop : ℕ → Bytes → Bytes
unfolding hex_nibble
hex_loop zero s = []
hex_loop (suc k) (high ∷ (low ∷ s)) =
    bit_or (hex_nibble high * 16 % 256) (hex_nibble low) ∷ hex_loop k s
hex_loop (suc k) _ = []

unfoldable pub const_hex_to_32 : String → Bytes
unfolding hex_loop
const_hex_to_32 s = hex_loop 32 (as_bytes s)

unfoldable pub domain_typehash : Bytes
unfolding const_hex_to_32
domain_typehash = const_hex_to_32 "8b73c3c69bb8fe3d512ecc4cf759cc79239f7b179b0ffacaa9a75d522b39400f"

unfoldable pub execute_typehash : Bytes
unfolding const_hex_to_32
execute_typehash =
    const_hex_to_32 "5e61180c786157773cdb1e3aff8dd66149b93ea36e48bf5e28f0fcf3895a1c9c"

unfoldable pub rotate_typehash : Bytes
unfolding const_hex_to_32
rotate_typehash = const_hex_to_32 "8f4436f69e71ad0ae17d640b65201039c4d90422d319e1151cf92d223086b47a"

unfoldable pub name_hash : Bytes
unfolding const_hex_to_32
name_hash = const_hex_to_32 "0b72970e1618929986bf5a7d529c51922dac77346c4b37b8a99a57436d812f1d"

unfoldable pub version_hash : Bytes
unfolding const_hex_to_32
version_hash = const_hex_to_32 "c89efdaa54c0f20c7adf612882df0950f5a951637e0307cdcb4c672f298b8bc6"

unfoldable pub u256_be : ℕ → Bytes
u256_be v = copy_from_slice 24 32 (to_be_bytes 8 v) (zeros 32)

unfoldable pub u64_padded_to_32 : ℕ → Bytes
unfolding u256_be
u64_padded_to_32 v = u256_be v

unfoldable pub addr_padded_to_32 : Bytes → Bytes
addr_padded_to_32 addr = copy_from_slice 12 32 addr (zeros 32)

module _ (keccak256 : Bytes → Bytes) where
  unfoldable pub domain_separator : ℕ → Bytes → Bytes
  unfolding u64_padded_to_32 addr_padded_to_32
  domain_separator chain_id account =
      let typed = copy_from_slice 0 32 domain_typehash (zeros 160) in
      let named = copy_from_slice 32 64 name_hash typed in
      let versioned = copy_from_slice 64 96 version_hash named in
      let chained = copy_from_slice 96 128 (u64_padded_to_32 chain_id) versioned in
      keccak256 (copy_from_slice 128 160 (addr_padded_to_32 account) chained)

  unfoldable pub envelope : ℕ → Bytes → Bytes → Bytes
  envelope chain_id account struct_hash =
      let domain = domain_separator chain_id account in
      let marked = copy_from_slice 0 1 (0x19 ∷ []) (zeros 66) in
      let versioned = copy_from_slice 1 2 (0x01 ∷ []) marked in
      let with_domain = copy_from_slice 2 34 domain versioned in
      keccak256 (copy_from_slice 34 66 struct_hash with_domain)

  unfoldable pub execute_hash : ℕ → Bytes → Bytes → Bytes → Bytes → Bytes → Bytes
  unfolding addr_padded_to_32
  execute_hash chain_id account to value_u256 payload nonce_u256 =
      let data_hash = keccak256 payload in
      let typed = copy_from_slice 0 32 execute_typehash (zeros 160) in
      let with_to = copy_from_slice 32 64 (addr_padded_to_32 to) typed in
      let with_value = copy_from_slice 64 96 value_u256 with_to in
      let with_data = copy_from_slice 96 128 data_hash with_value in
      let struct_hash = keccak256 (copy_from_slice 128 160 nonce_u256 with_data) in
      envelope chain_id account struct_hash

  unfoldable pub rotate_hash : ℕ → Bytes → Bytes → Bytes → Bytes → Bytes
  rotate_hash chain_id account new_x new_y nonce_u256 =
      let typed = copy_from_slice 0 32 rotate_typehash (zeros 128) in
      let with_x = copy_from_slice 32 64 new_x typed in
      let with_y = copy_from_slice 64 96 new_y with_x in
      let struct_hash = keccak256 (copy_from_slice 96 128 nonce_u256 with_y) in
      envelope chain_id account struct_hash
