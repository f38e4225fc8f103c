-- ===== src/UnitTests/Requests.antt =====
-- The tests of the execute and rotation validators over the stand-in for the
-- precompile.
use stylus_mobile_native_aut.Base.{ℕ, Bool, true, false, ◌&&◌, List, [], ◌∷◌}
use stylus_mobile_native_aut.Bytes.{Bytes, zeros, to_be_bytes, copy_from_slice}
use stylus_mobile_native_aut.Eip712.{word, compute_execute_hash, compute_rotate_hash}
use stylus_mobile_native_aut.Errors.{is_ok, invalid_public_key, invalid_signature, nonce_mismatch}
use stylus_mobile_native_aut.Signature.Shim.{Cells, expect_next, clear}
use stylus_mobile_native_aut.Validators.{ExecuteRequest, RotationRequest}
use stylus_mobile_native_aut.UnitTests.{
  saw, fails_as, fails_with_nonces, add_u256, prime, well_formed_sig, address_of, u, gx, gy, g2x,
  g2y,
}
use stylus_mobile_native_aut.UnitTests.Build.{validate_execute_request, validate_rotation_request}

-- `fixture_execute_request`
unfoldable pub fixture_execute_request : Bytes → ExecuteRequest
unfolding u
fixture_execute_request sig = record {
  owner_x = u gx;
  owner_y = u gy;
  current_nonce = 0;
  chain_id = 42161;
  account = address_of 0x11;
  to = address_of 0x22;
  value = 1000;
  payload = [];
  nonce = 0;
  signature = sig;
}

-- `fixture_rotation_request`
unfoldable pub fixture_rotation_request : Bytes → RotationRequest
unfolding u
fixture_rotation_request sig = record {
  owner_x = u gx;
  owner_y = u gy;
  current_nonce = 0;
  chain_id = 42161;
  account = address_of 0x11;
  new_x = u g2x;
  new_y = u g2y;
  nonce = 0;
  signature = sig;
}

module _ (keccak : Bytes → ℕ) (cells : Cells) where
  unfoldable pub execute_request_rejects_nonce_mismatch : Bool
  unfolding validate_execute_request clear fixture_execute_request
  execute_request_rejects_nonce_mismatch =
      let req = record (fixture_execute_request well_formed_sig) { current_nonce = 5; nonce = 7 } in
      fails_with_nonces 5 7 (validate_execute_request keccak req (clear cells)).0

  unfoldable pub execute_request_rejects_invalid_signature : Bool
  unfolding validate_execute_request clear expect_next fixture_execute_request
  execute_request_rejects_invalid_signature =
      let ready = expect_next false (clear cells) in
      let req = fixture_execute_request well_formed_sig in
      fails_as invalid_signature (validate_execute_request keccak req ready).0

  unfoldable pub execute_request_accepts_when_all_checks_pass : Bool
  unfolding validate_execute_request clear expect_next fixture_execute_request
  execute_request_accepts_when_all_checks_pass =
      let ready = expect_next true (clear cells) in
      let req = fixture_execute_request well_formed_sig in
      is_ok (validate_execute_request keccak req ready).0

  unfoldable pub execute_request_dispatches_with_execute_hash_not_rotate_hash : Bool
  unfolding validate_execute_request clear expect_next fixture_execute_request
  execute_request_dispatches_with_execute_hash_not_rotate_hash =
      let req = fixture_execute_request well_formed_sig in
      let (checked, used) = validate_execute_request keccak req (expect_next true (clear cells)) in
      let expected =
        compute_execute_hash keccak req.chain_id req.account req.to req.value req.payload
          req.nonce in
      is_ok checked && saw 0 32 (word expected) used

  unfoldable pub rotation_request_rejects_nonce_mismatch : Bool
  unfolding validate_rotation_request clear fixture_rotation_request
  rotation_request_rejects_nonce_mismatch =
      let req = record (fixture_rotation_request well_formed_sig) {
        current_nonce = 3;
        nonce = 9;
      } in
      fails_as (nonce_mismatch 0 0) (validate_rotation_request keccak req (clear cells)).0

  unfoldable pub rotation_request_rejects_zero_new_x : Bool
  unfolding validate_rotation_request clear fixture_rotation_request
  rotation_request_rejects_zero_new_x =
      let req = record (fixture_rotation_request well_formed_sig) { new_x = 0 } in
      fails_as invalid_public_key (validate_rotation_request keccak req (clear cells)).0

  unfoldable pub rotation_request_rejects_zero_new_y : Bool
  unfolding validate_rotation_request clear fixture_rotation_request
  rotation_request_rejects_zero_new_y =
      let req = record (fixture_rotation_request well_formed_sig) { new_y = 0 } in
      fails_as invalid_public_key (validate_rotation_request keccak req (clear cells)).0

  unfoldable pub rotation_request_rejects_new_x_at_or_above_p : Bool
  unfolding validate_rotation_request clear fixture_rotation_request
  rotation_request_rejects_new_x_at_or_above_p =
      let req = record (fixture_rotation_request well_formed_sig) { new_x = prime } in
      fails_as invalid_public_key (validate_rotation_request keccak req (clear cells)).0

  unfoldable pub rotation_request_rejects_when_signature_fails : Bool
  unfolding validate_rotation_request clear expect_next fixture_rotation_request
  rotation_request_rejects_when_signature_fails =
      let ready = expect_next false (clear cells) in
      let req = fixture_rotation_request well_formed_sig in
      fails_as invalid_signature (validate_rotation_request keccak req ready).0

  unfoldable pub rotation_request_signature_is_verified_against_current_owner : Bool
  unfolding validate_rotation_request clear expect_next fixture_rotation_request u
  rotation_request_signature_is_verified_against_current_owner =
      let req = record (fixture_rotation_request well_formed_sig) {
        owner_x = 0xCAFE;
        owner_y = 0xBEEF;
        new_x = u g2x;
        new_y = u g2y;
      } in
      let (checked, used) = validate_rotation_request keccak req (expect_next true (clear cells)) in
      let want_x = copy_from_slice 24 32 (to_be_bytes 8 0xCAFE) (zeros 32) in
      let want_y = copy_from_slice 24 32 (to_be_bytes 8 0xBEEF) (zeros 32) in
      is_ok checked && saw 96 128 want_x used && saw 128 160 want_y used

  unfoldable pub rotation_request_accepts_when_all_checks_pass : Bool
  unfolding validate_rotation_request clear expect_next fixture_rotation_request
  rotation_request_accepts_when_all_checks_pass =
      let ready = expect_next true (clear cells) in
      let req = fixture_rotation_request well_formed_sig in
      is_ok (validate_rotation_request keccak req ready).0

  unfoldable pub rotation_request_dispatches_with_rotate_hash_not_execute_hash : Bool
  unfolding validate_rotation_request clear expect_next fixture_rotation_request
  rotation_request_dispatches_with_rotate_hash_not_execute_hash =
      let req = fixture_rotation_request well_formed_sig in
      let (checked, used) = validate_rotation_request keccak req (expect_next true (clear cells)) in
      let expected =
        compute_rotate_hash keccak req.chain_id req.account req.new_x req.new_y req.nonce in
      is_ok checked && saw 0 32 (word expected) used

  unfoldable pub rotation_to_an_off_curve_point_is_rejected : Bool
  unfolding validate_rotation_request clear expect_next u
  rotation_to_an_off_curve_point_is_rejected =
      let ready = expect_next true (clear cells) in
      let req : RotationRequest = record {
        owner_x = u gx;
        owner_y = u gy;
        current_nonce = 0;
        chain_id = 42161;
        account = address_of 0xaa;
        new_x = add_u256 (u gx) 1;
        new_y = u gy;
        nonce = 0;
        signature = well_formed_sig;
      } in
      fails_as invalid_public_key (validate_rotation_request keccak req ready).0

  unfoldable pub rotation_to_a_real_curve_point_is_accepted : Bool
  unfolding validate_rotation_request clear expect_next u
  rotation_to_a_real_curve_point_is_accepted =
      let ready = expect_next true (clear cells) in
      let req : RotationRequest = record {
        owner_x = u gx;
        owner_y = u gy;
        current_nonce = 0;
        chain_id = 42161;
        account = address_of 0xaa;
        new_x = u g2x;
        new_y = u g2y;
        nonce = 0;
        signature = well_formed_sig;
      } in
      is_ok (validate_rotation_request keccak req ready).0

  unfoldable pub requests_suite : List Bool
  unfolding execute_request_rejects_nonce_mismatch execute_request_rejects_invalid_signature
      execute_request_accepts_when_all_checks_pass rotation_request_rejects_nonce_mismatch
      rotation_request_rejects_zero_new_x rotation_request_rejects_zero_new_y
      rotation_request_rejects_new_x_at_or_above_p rotation_request_rejects_when_signature_fails
      rotation_request_signature_is_verified_against_current_owner
      rotation_request_accepts_when_all_checks_pass rotation_to_an_off_curve_point_is_rejected
      rotation_to_a_real_curve_point_is_accepted
  requests_suite =
      execute_request_rejects_nonce_mismatch ∷ execute_request_rejects_invalid_signature
      ∷ execute_request_accepts_when_all_checks_pass ∷ rotation_request_rejects_nonce_mismatch
      ∷ rotation_request_rejects_zero_new_x ∷ rotation_request_rejects_zero_new_y
      ∷ rotation_request_rejects_new_x_at_or_above_p ∷ rotation_request_rejects_when_signature_fails
      ∷ rotation_request_signature_is_verified_against_current_owner
      ∷ rotation_request_accepts_when_all_checks_pass ∷ rotation_to_an_off_curve_point_is_rejected
      ∷ rotation_to_a_real_curve_point_is_accepted ∷ []

  unfoldable pub dispatch_suite : List Bool
  unfolding execute_request_dispatches_with_execute_hash_not_rotate_hash
      rotation_request_dispatches_with_rotate_hash_not_execute_hash
  dispatch_suite =
      execute_request_dispatches_with_execute_hash_not_rotate_hash
      ∷ rotation_request_dispatches_with_rotate_hash_not_execute_hash ∷ []
