-- ===== src/Signature.antt =====
-- `validate_p256_signature` and `verify_p256_precompile` of
-- contracts/stylus/p256-account/src/lib.rs.
pub mod Verdict
pub mod Malleable
pub mod Shim
use stylus_mobile_native_aut.Base.{
  ℕ, ◌%◌, Bool, true, false, Option, none, some, ◌&&◌, length, get_elem?, ok, err, ◌==◌,
  if◌then◌else◌,
}
use stylus_mobile_native_aut.Bytes.{
  Bytes, to_be_bytes, from_be_bytes, zeros, slice, copy_from_slice, u64_mod,
}
use stylus_mobile_native_aut.Eip712.{word}
use stylus_mobile_native_aut.P256.{is_valid_scalar, is_low_s}
use stylus_mobile_native_aut.Host.{Host}
use stylus_mobile_native_aut.Errors.{
  P256AccountError, Checked, invalid_signature_length, invalid_signature, invalid_r, invalid_s,
  high_s, ◌unless◌then◌,
}

-- `P256_PRECOMPILE`
abbrev pub p256_precompile : ℕ
p256_precompile = 0x100

-- The 160 bytes of `verify_p256_precompile`.
unfoldable pub precompile_input : ℕ → ℕ → ℕ → ℕ → ℕ → Bytes
precompile_input hash r s x y =
    let with_hash = copy_from_slice 0 32 (word hash) (zeros 160) in
    let with_r = copy_from_slice 32 64 (word r) with_hash in
    let with_s = copy_from_slice 64 96 (word s) with_r in
    let with_x = copy_from_slice 96 128 (word x) with_s in copy_from_slice 128 160 (word y) with_x

-- `output.len() == 32 && output[31] == 1`; the index is in range where the length is 32.
abbrev pub is_magic : Bytes → Bool
is_magic output =
    (length output == 32) && elim (get_elem? output 31) [ none ↦ false | some b ↦ b == 1 ]

module _ (host : Host) where
  -- `precompile_staticcall`, the build that is deployed.
  unfoldable pub precompile_staticcall : Bytes → Option Bytes
  precompile_staticcall input = host.staticcall p256_precompile input

  unfoldable pub verify_p256_precompile : ℕ → ℕ → ℕ → ℕ → ℕ → Bool
  verify_p256_precompile hash r s x y =
      elim (precompile_staticcall (precompile_input hash r s x y)) [
        | some output ↦ is_magic output
        | none ↦ false
      ]

  -- `got: signature.len() as u64`
  unfoldable pub validate_p256_signature : ℕ → Bytes → ℕ → ℕ → Checked (Unit {0})
  validate_p256_signature hash signature owner_x owner_y =
      let r = from_be_bytes (slice 0 32 signature) in
      let s = from_be_bytes (slice 32 64 signature) in
      invalid_signature_length (length signature % u64_mod) unless length signature == 64
      then invalid_r unless is_valid_scalar r
      then invalid_s unless is_valid_scalar s
      then high_s unless is_low_s s
      then invalid_signature unless verify_p256_precompile hash r s owner_x owner_y
      then ok tt
