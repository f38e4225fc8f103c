-- ===== src/UnitTests/Signatures.antt =====
-- The tests of `validate_p256_signature` and of `validate_authorised_hash` over the stand-in for the precompile. A test starts from cells
-- in any state, and clears them.
use stylus_mobile_native_aut.Base.{ℕ, Bool, true, false, ◌&&◌, none, some, List, [], ◌∷◌}
use stylus_mobile_native_aut.Bytes.{zeros, slice, copy_from_slice}
use stylus_mobile_native_aut.P256.{p256_order_n}
use stylus_mobile_native_aut.Eip712.{word}
use stylus_mobile_native_aut.Errors.{
  is_ok, invalid_signature, invalid_r, invalid_s, high_s, nonce_mismatch,
}
use stylus_mobile_native_aut.Signature.Shim.{Cells, expect_next, clear}
use stylus_mobile_native_aut.Receivers.{bytes_eq}
use stylus_mobile_native_aut.UnitTests.{
  u, gx, gy, saw, saw_nothing, fails_as, fails_with_length, add_u256, half_order, well_formed_sig,
  b256_of,
}
use stylus_mobile_native_aut.UnitTests.Build.{validate_p256_signature, validate_authorised_hash}

module _ (cells : Cells) where
  unfoldable pub validate_rejects_wrong_length : Bool
  unfolding validate_p256_signature clear
  validate_rejects_wrong_length =
      fails_with_length 63 (validate_p256_signature 0 (zeros 63) 1 1 (clear cells)).0

  unfoldable pub validate_rejects_zero_r : Bool
  unfolding validate_p256_signature clear
  validate_rejects_zero_r =
      let sig = copy_from_slice 0 32 (zeros 32) well_formed_sig in
      fails_as invalid_r (validate_p256_signature 0 sig 1 1 (clear cells)).0

  unfoldable pub validate_rejects_r_above_or_equal_to_n : Bool
  unfolding validate_p256_signature clear
  validate_rejects_r_above_or_equal_to_n =
      let sig = copy_from_slice 0 32 p256_order_n well_formed_sig in
      fails_as invalid_r (validate_p256_signature 0 sig 1 1 (clear cells)).0

  unfoldable pub validate_rejects_zero_s_as_invalid_s : Bool
  unfolding validate_p256_signature clear
  validate_rejects_zero_s_as_invalid_s =
      let sig = copy_from_slice 32 64 (zeros 32) well_formed_sig in
      fails_as invalid_s (validate_p256_signature 0 sig 1 1 (clear cells)).0

  unfoldable pub validate_rejects_high_s_with_dedicated_error : Bool
  unfolding validate_p256_signature clear
  validate_rejects_high_s_with_dedicated_error =
      let sig = copy_from_slice 32 64 (word (add_u256 half_order 1)) well_formed_sig in
      fails_as high_s (validate_p256_signature 0 sig 1 1 (clear cells)).0

  unfoldable pub validate_rejects_when_precompile_returns_false : Bool
  unfolding validate_p256_signature clear expect_next
  validate_rejects_when_precompile_returns_false =
      let ready = expect_next false (clear cells) in
      fails_as invalid_signature (validate_p256_signature 0 well_formed_sig 1 1 ready).0

  unfoldable pub validate_rejects_when_precompile_unavailable : Bool
  unfolding validate_p256_signature clear
  validate_rejects_when_precompile_unavailable =
      fails_as invalid_signature (validate_p256_signature 0 well_formed_sig 1 1 (clear cells)).0

  unfoldable pub validate_accepts_when_precompile_returns_magic_one : Bool
  unfolding validate_p256_signature clear expect_next
  validate_accepts_when_precompile_returns_magic_one =
      let ready = expect_next true (clear cells) in
      is_ok (validate_p256_signature 0 well_formed_sig 1 1 ready).0

  unfoldable pub validate_dispatches_canonical_rip7212_layout : Bool
  unfolding validate_p256_signature clear expect_next
  validate_dispatches_canonical_rip7212_layout =
      let hash = b256_of 0x77 in
      let r : ℕ = 0x1234_5678 in
      let s : ℕ = 0x9ABC_DEF0 in
      let x : ℕ = 0xAAAA_BBBB in
      let y : ℕ = 0xCCCC_DDDD in
      let sig = copy_from_slice 32 64 (word s) (copy_from_slice 0 32 (word r) (zeros 64)) in
      let (checked, used) = validate_p256_signature hash sig x y (expect_next true (clear cells)) in
      is_ok checked && elim used.last_input [
        | none ↦ false
        | some seen ↦
            bytes_eq (slice 0 32 seen) (word hash)
            && bytes_eq (slice 32 64 seen) (word r)
            && bytes_eq (slice 64 96 seen) (word s)
            && bytes_eq (slice 96 128 seen) (word x)
            && bytes_eq (slice 128 160 seen) (word y)
      ]

  unfoldable pub authorised_hash_rejects_nonce_mismatch_before_checking_signature : Bool
  unfolding validate_authorised_hash clear
  authorised_hash_rejects_nonce_mismatch_before_checking_signature =
      let (res, left) =
        validate_authorised_hash (b256_of 0x42) 5 4 1 2 well_formed_sig (clear cells) in
      fails_as (nonce_mismatch 0 0) res && saw_nothing left

  unfoldable pub authorised_hash_rejects_bad_signature_and_accepts_good_one : Bool
  unfolding validate_authorised_hash clear expect_next u
  authorised_hash_rejects_bad_signature_and_accepts_good_one =
      let hash = b256_of 0x42 in
      let (bad, after_bad) =
        validate_authorised_hash hash 0 0 (u gx) (u gy) well_formed_sig
          (expect_next false (clear cells)) in
      let (good, after_good) =
        validate_authorised_hash hash 0 0 1 2 well_formed_sig
          (expect_next true (clear after_bad)) in
      fails_as invalid_signature bad && is_ok good && saw 0 32 (word hash) after_good

  unfoldable pub signatures_suite : List Bool
  unfolding validate_rejects_wrong_length validate_rejects_zero_r
      validate_rejects_r_above_or_equal_to_n validate_rejects_zero_s_as_invalid_s
      validate_rejects_high_s_with_dedicated_error validate_rejects_when_precompile_returns_false
      validate_rejects_when_precompile_unavailable
      validate_accepts_when_precompile_returns_magic_one
      validate_dispatches_canonical_rip7212_layout
      authorised_hash_rejects_nonce_mismatch_before_checking_signature
      authorised_hash_rejects_bad_signature_and_accepts_good_one
  signatures_suite =
      validate_rejects_wrong_length ∷ validate_rejects_zero_r
      ∷ validate_rejects_r_above_or_equal_to_n ∷ validate_rejects_zero_s_as_invalid_s
      ∷ validate_rejects_high_s_with_dedicated_error
      ∷ validate_rejects_when_precompile_returns_false
      ∷ validate_rejects_when_precompile_unavailable
      ∷ validate_accepts_when_precompile_returns_magic_one
      ∷ validate_dispatches_canonical_rip7212_layout
      ∷ authorised_hash_rejects_nonce_mismatch_before_checking_signature
      ∷ authorised_hash_rejects_bad_signature_and_accepts_good_one ∷ []
