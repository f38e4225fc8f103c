-- ===== src/Validators/Decisions.antt =====
-- What each validator accepts, and the error that each refusal carries.
use stylus_mobile_native_aut.Base.{ℕ, ◌%◌, ◌≤◌, ◌<◌, ◌≡◌, ◌≢◌, ◌↔◌, ◌⊎◌, true, ok, err, arith}
use stylus_mobile_native_aut.Bytes.{Bytes, u64_mod}
use stylus_mobile_native_aut.P256.{is_valid_pubkey}
use stylus_mobile_native_aut.Eip712.{compute_execute_hash, compute_rotate_hash}
use stylus_mobile_native_aut.Host.{Host}
use stylus_mobile_native_aut.Errors.{nonce_mismatch, invalid_batch}
use stylus_mobile_native_aut.Signature.{validate_p256_signature}
use stylus_mobile_native_aut.Validators.{
  ExecuteRequest, RotationRequest, validate_batch_shape, validate_execute_request,
  validate_rotation_request, validate_authorised_hash,
}

-- A batch has the right shape exactly if the three arrays have one length, from 1 to 32.
pub validate_batch_shape_iff :
    (to_len value_len data_len : ℕ)
    → (validate_batch_shape to_len value_len data_len ≡ ok tt)
      ↔ (0 < to_len) × (to_len ≤ 32) × (value_len ≡ to_len) × (data_len ≡ to_len)
unfolding validate_batch_shape
validate_batch_shape_iff to_len value_len data_len = ground arith

-- Any other shape is refused, and nothing else happens.
pub validate_batch_shape_total :
    (to_len value_len data_len : ℕ)
    → (validate_batch_shape to_len value_len data_len ≡ ok tt)
      ⊎ (validate_batch_shape to_len value_len data_len
          ≡ err (invalid_batch (to_len % u64_mod) (value_len % u64_mod) (data_len % u64_mod)))
unfolding validate_batch_shape
validate_batch_shape_total to_len value_len data_len = ground arith

module _ (host : Host) where
  pub validate_execute_request_iff :
      (r : ExecuteRequest)
      → (validate_execute_request host r ≡ ok tt)
        ↔ (r.nonce ≡ r.current_nonce)
          × (validate_p256_signature host
                (compute_execute_hash host.keccak r.chain_id r.account r.to r.value r.payload
                  r.nonce)
                r.signature
                r.owner_x
                r.owner_y
              ≡ ok tt)
  unfolding validate_execute_request
  validate_execute_request_iff r = ground arith

  pub validate_rotation_request_iff :
      (r : RotationRequest)
      → (validate_rotation_request host r ≡ ok tt)
        ↔ (r.nonce ≡ r.current_nonce)
          × (is_valid_pubkey r.new_x r.new_y ≡ true)
          × (validate_p256_signature host
                (compute_rotate_hash host.keccak r.chain_id r.account r.new_x r.new_y r.nonce)
                r.signature
                r.owner_x
                r.owner_y
              ≡ ok tt)
  unfolding validate_rotation_request
  validate_rotation_request_iff r = ground arith

  pub validate_authorised_hash_iff :
      (hash current_nonce nonce owner_x owner_y : ℕ) (signature : Bytes)
      → (validate_authorised_hash host hash current_nonce nonce owner_x owner_y signature ≡ ok tt)
        ↔ (nonce ≡ current_nonce)
          × (validate_p256_signature host hash signature owner_x owner_y ≡ ok tt)
  unfolding validate_authorised_hash
  validate_authorised_hash_iff hash current_nonce nonce owner_x owner_y signature = ground arith

  -- A stale or future nonce is refused before the signature is looked at.
  pub validate_execute_request_mismatch :
      (r : ExecuteRequest)
      → r.nonce ≢ r.current_nonce
      → validate_execute_request host r ≡ err (nonce_mismatch r.current_nonce r.nonce)
  unfolding validate_execute_request
  validate_execute_request_mismatch r h = ground arith
