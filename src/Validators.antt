-- ===== src/Validators.antt =====
-- The pure validators of contracts/stylus/p256-account/src/lib.rs, with the requests they take.
pub mod Decisions
pub mod Decided
use stylus_mobile_native_aut.Base.{
  ℕ, ◌%◌, Bool, List, [], ◌∷◌, ◌||◌, not, ok, err, ltb, ◌==◌, if◌then◌else◌,
}
use stylus_mobile_native_aut.Bytes.{Bytes, u64_mod}
use stylus_mobile_native_aut.P256.{is_valid_pubkey}
use stylus_mobile_native_aut.Eip712.{compute_execute_hash, compute_rotate_hash}
use stylus_mobile_native_aut.Host.{Host}
use stylus_mobile_native_aut.Errors.{
  Checked, invalid_public_key, nonce_mismatch, invalid_batch, ◌unless◌then◌,
}
use stylus_mobile_native_aut.Signature.{validate_p256_signature}

pub record ExecuteRequest : Type 0 where
  pub owner_x : ℕ
  pub owner_y : ℕ
  pub current_nonce : ℕ
  pub chain_id : ℕ
  pub account : ℕ
  pub to : ℕ
  pub value : ℕ
  pub payload : Bytes  -- `data`
  pub nonce : ℕ
  pub signature : Bytes

pub record RotationRequest : Type 0 where
  pub owner_x : ℕ
  pub owner_y : ℕ
  pub current_nonce : ℕ
  pub chain_id : ℕ
  pub account : ℕ
  pub new_x : ℕ
  pub new_y : ℕ
  pub nonce : ℕ
  pub signature : Bytes

-- `MAX_BATCH_CALLS`
abbrev pub max_batch_calls : ℕ
max_batch_calls = 32

unfoldable pub validate_constructor_args : ℕ → ℕ → Checked (Unit {0})
validate_constructor_args x y = invalid_public_key unless is_valid_pubkey x y then ok tt

unfoldable pub validate_batch_shape : ℕ → ℕ → ℕ → Checked (Unit {0})
validate_batch_shape to_len value_len data_len =
    if (to_len == 0)
      || (not (to_len == value_len) || (not (to_len == data_len) || ltb max_batch_calls to_len))
    then err (invalid_batch (to_len % u64_mod) (value_len % u64_mod) (data_len % u64_mod))
    else ok tt

-- `eip1271_response`: `EIP1271_MAGIC`, or four zero bytes.
abbrev pub eip1271_magic : Bytes
eip1271_magic = 0x16 ∷ 0x26 ∷ 0xba ∷ 0x7e ∷ []

unfoldable pub eip1271_response : Bool → Bytes
eip1271_response verified = if verified then eip1271_magic else 0 ∷ 0 ∷ 0 ∷ 0 ∷ []

module _ (host : Host) where
  unfoldable pub validate_execute_request : ExecuteRequest → Checked (Unit {0})
  validate_execute_request r =
      nonce_mismatch r.current_nonce r.nonce unless r.current_nonce == r.nonce
      then let hash =
          compute_execute_hash host.keccak r.chain_id r.account r.to r.value r.payload r.nonce in
        validate_p256_signature host hash r.signature r.owner_x r.owner_y

  unfoldable pub validate_rotation_request : RotationRequest → Checked (Unit {0})
  validate_rotation_request r =
      nonce_mismatch r.current_nonce r.nonce unless r.current_nonce == r.nonce
      then invalid_public_key unless is_valid_pubkey r.new_x r.new_y
      then let hash =
          compute_rotate_hash host.keccak r.chain_id r.account r.new_x r.new_y r.nonce in
        validate_p256_signature host hash r.signature r.owner_x r.owner_y

  unfoldable pub validate_authorised_hash : ℕ → ℕ → ℕ → ℕ → ℕ → Bytes → Checked (Unit {0})
  validate_authorised_hash hash current_nonce nonce owner_x owner_y signature =
      nonce_mismatch current_nonce nonce unless nonce == current_nonce
      then validate_p256_signature host hash signature owner_x owner_y
