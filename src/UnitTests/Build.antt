-- ===== src/UnitTests/Build.antt =====
-- The validators as `cfg(test)` builds them: over the stand-in for the precompile, whose two cells they
-- read and write.
use stylus_mobile_native_aut.Base.{ℕ, ◌%◌, ok, err, length, ◌==◌, not, if◌then◌else◌}
use stylus_mobile_native_aut.Bytes.{Bytes, from_be_bytes, slice, u64_mod}
use stylus_mobile_native_aut.P256.{is_valid_scalar, is_low_s, is_valid_pubkey}
use stylus_mobile_native_aut.Eip712.{compute_execute_hash, compute_rotate_hash}
use stylus_mobile_native_aut.Errors.{
  Checked, invalid_public_key, invalid_signature_length, invalid_signature, invalid_r, invalid_s,
  high_s, nonce_mismatch,
}
use stylus_mobile_native_aut.Signature.Shim.{Cells, verify_with_shim}
use stylus_mobile_native_aut.Validators.{ExecuteRequest, RotationRequest}

-- A check that may use the stand-in.
abbrev pub Shimmed : Type 0
Shimmed = Cells → Checked (Unit {0}) × Cells

unfoldable pub validate_p256_signature : ℕ → Bytes → ℕ → ℕ → Shimmed
unfolding verify_with_shim
validate_p256_signature hash signature owner_x owner_y cells =
    let r = from_be_bytes (slice 0 32 signature) in
    let s = from_be_bytes (slice 32 64 signature) in
    let (verified, used) = verify_with_shim hash r s owner_x owner_y cells in
    if not (length signature == 64)
    then (err (invalid_signature_length (length signature % u64_mod)), cells)
    else if not (is_valid_scalar r)
    then (err invalid_r, cells)
    else if not (is_valid_scalar s)
    then (err invalid_s, cells)
    else if not (is_low_s s)
    then (err high_s, cells)
    else if not verified
    then (err invalid_signature, used)
    else (ok tt, used)

unfoldable pub validate_authorised_hash : ℕ → ℕ → ℕ → ℕ → ℕ → Bytes → Shimmed
validate_authorised_hash hash current_nonce nonce owner_x owner_y signature cells =
    let checked = validate_p256_signature hash signature owner_x owner_y cells in
    if not (nonce == current_nonce)
    then (err (nonce_mismatch current_nonce nonce), cells)
    else checked

module _ (keccak : Bytes → ℕ) where
  unfoldable pub validate_execute_request : ExecuteRequest → Shimmed
  validate_execute_request r cells =
      let hash = compute_execute_hash keccak r.chain_id r.account r.to r.value r.payload r.nonce in
      let checked = validate_p256_signature hash r.signature r.owner_x r.owner_y cells in
      if not (r.current_nonce == r.nonce)
      then (err (nonce_mismatch r.current_nonce r.nonce), cells)
      else checked

  unfoldable pub validate_rotation_request : RotationRequest → Shimmed
  validate_rotation_request r cells =
      let hash = compute_rotate_hash keccak r.chain_id r.account r.new_x r.new_y r.nonce in
      let checked = validate_p256_signature hash r.signature r.owner_x r.owner_y cells in
      if not (r.current_nonce == r.nonce)
      then (err (nonce_mismatch r.current_nonce r.nonce), cells)
      else if not (is_valid_pubkey r.new_x r.new_y)
      then (err invalid_public_key, cells)
      else checked
