-- ===== src/UnitTests/Constants.antt =====
-- The tests of the constants, the predicates on scalars and coordinates, the error shapes and the two
-- result mappings.
use stylus_mobile_native_aut.Base.{◌-◌, Bool, true, false, ◌&&◌, not, [], ◌∷◌, ◌++◌, ◌==◌, List}
use stylus_mobile_native_aut.Bytes.{zeros, from_be_bytes, u256_mod}
use stylus_mobile_native_aut.P256.{is_low_s, is_valid_scalar, is_valid_pubkey_component, sub_u256}
use stylus_mobile_native_aut.Eip712.{
  batch_typehash, execute_typehash, rotate_typehash, call_typehash,
}
use stylus_mobile_native_aut.Errors.{
  invalid_signature, invalid_r, invalid_s, high_s, unknown_selector, nonce_mismatch,
}
use stylus_mobile_native_aut.Signature.{p256_precompile}
use stylus_mobile_native_aut.Validators.{eip1271_magic, eip1271_response}
use stylus_mobile_native_aut.Receivers.{
  bytes_eq, erc721_received_magic, erc1155_received_magic, erc1155_batch_received_magic,
}
use stylus_mobile_native_aut.Machine.{returned, reverted}
use stylus_mobile_native_aut.Account.{execute_outcome}
use stylus_mobile_native_aut.UnitTests.{variant, add_u256, mul_u256, prime, order, half_order}

unfoldable pub precompile_address_is_0x100 : Bool
unfolding from_be_bytes
precompile_address_is_0x100 = p256_precompile == from_be_bytes (zeros 18 ++ (0x01 ∷ (0x00 ∷ [])))

-- The text of the expected number is read as the number it spells.
unfoldable pub p256_order_constant_matches_spec : Bool
unfolding from_be_bytes
p256_order_constant_matches_spec =
    order == 0xFFFFFFFF00000000FFFFFFFFFFFFFFFFBCE6FAADA7179E84F3B9CAC2FC632551

unfoldable pub p256_field_prime_constant_matches_spec : Bool
unfolding from_be_bytes
p256_field_prime_constant_matches_spec =
    prime == 0xFFFFFFFF00000001000000000000000000000000FFFFFFFFFFFFFFFFFFFFFFFF

unfoldable pub half_order_is_floor_n_over_2 : Bool
unfolding from_be_bytes
half_order_is_floor_n_over_2 = add_u256 (mul_u256 half_order 2) 1 == order

unfoldable pub eip1271_magic_value_matches_spec : Bool
eip1271_magic_value_matches_spec = bytes_eq eip1271_magic (0x16 ∷ 0x26 ∷ 0xba ∷ 0x7e ∷ [])

unfoldable pub low_s_accepts_boundary_and_rejects_above : Bool
unfolding is_low_s from_be_bytes
low_s_accepts_boundary_and_rejects_above =
    not (is_low_s 0)
    && is_low_s 1
    && is_low_s half_order
    && not (is_low_s (add_u256 half_order 1))
    && not (is_low_s (sub_u256 order 1))

unfoldable pub scalar_bound_accepts_in_range_rejects_out_of_range : Bool
unfolding is_valid_scalar from_be_bytes
scalar_bound_accepts_in_range_rejects_out_of_range =
    not (is_valid_scalar 0)
    && is_valid_scalar 1
    && is_valid_scalar (sub_u256 order 1)
    && not (is_valid_scalar order)
    && not (is_valid_scalar (add_u256 order 1))
    && not (is_valid_scalar (u256_mod - 1))
    && is_valid_scalar half_order

unfoldable pub pubkey_component_validation_rejects_extremes : Bool
unfolding is_valid_pubkey_component from_be_bytes
pubkey_component_validation_rejects_extremes =
    not (is_valid_pubkey_component 0)
    && not (is_valid_pubkey_component prime)
    && not (is_valid_pubkey_component (add_u256 prime 1))
    && not (is_valid_pubkey_component (u256_mod - 1))
    && is_valid_pubkey_component 1
    && is_valid_pubkey_component (sub_u256 prime 1)

unfoldable pub error_variants_are_distinct : Bool
error_variants_are_distinct =
    (variant invalid_r == 3)
    && (variant invalid_s == 4)
    && (variant high_s == 6)
    && (variant invalid_signature == 2)
    && (variant unknown_selector == 7)
    && elim (nonce_mismatch 5 7) [
      | nonce_mismatch expected got ↦ (expected == 5) && (got == 7)
      | _ ↦ false
    ]

unfoldable pub execute_outcome_maps_ok_to_success_with_return_bytes : Bool
unfolding execute_outcome
execute_outcome_maps_ok_to_success_with_return_bytes =
    let (success, return_data) = execute_outcome (returned (0xCA ∷ 0xFE ∷ [])) in
    success && bytes_eq return_data (0xCA ∷ 0xFE ∷ [])

unfoldable pub execute_outcome_maps_revert_to_failure_carrying_bytes : Bool
unfolding execute_outcome
execute_outcome_maps_revert_to_failure_carrying_bytes =
    let revert = 0xDE ∷ 0xAD ∷ 0xBE ∷ 0xEF ∷ [] in
    let (success, return_data) = execute_outcome (reverted revert) in
    not success && bytes_eq return_data revert

unfoldable pub execute_outcome_preserves_empty_revert_bytes : Bool
unfolding execute_outcome
execute_outcome_preserves_empty_revert_bytes =
    let (success, return_data) = execute_outcome (reverted []) in
    not success && bytes_eq return_data []

unfoldable pub eip1271_response_returns_magic_on_verified : Bool
unfolding eip1271_response
eip1271_response_returns_magic_on_verified = bytes_eq (eip1271_response true) eip1271_magic

unfoldable pub eip1271_response_returns_zeros_on_unverified : Bool
unfolding eip1271_response
eip1271_response_returns_zeros_on_unverified =
    bytes_eq (eip1271_response false) (0 ∷ 0 ∷ 0 ∷ 0 ∷ [])
    && not (bytes_eq (eip1271_response false) eip1271_magic)

unfoldable pub batch_typehash_is_distinct_from_execute_and_rotate : Bool
batch_typehash_is_distinct_from_execute_and_rotate =
    not (batch_typehash == execute_typehash)
    && not (batch_typehash == rotate_typehash)
    && not (batch_typehash == call_typehash)

unfoldable pub receiver_magics_are_distinct_from_the_eip1271_magic : Bool
receiver_magics_are_distinct_from_the_eip1271_magic =
    not (bytes_eq erc721_received_magic eip1271_magic)
    && not (bytes_eq erc1155_received_magic eip1271_magic)
    && not (bytes_eq erc1155_batch_received_magic eip1271_magic)

unfoldable pub constants_suite : List Bool
unfolding precompile_address_is_0x100 p256_order_constant_matches_spec
    p256_field_prime_constant_matches_spec half_order_is_floor_n_over_2
    eip1271_magic_value_matches_spec low_s_accepts_boundary_and_rejects_above
    scalar_bound_accepts_in_range_rejects_out_of_range pubkey_component_validation_rejects_extremes
    error_variants_are_distinct execute_outcome_maps_ok_to_success_with_return_bytes
    execute_outcome_maps_revert_to_failure_carrying_bytes
    execute_outcome_preserves_empty_revert_bytes eip1271_response_returns_magic_on_verified
    eip1271_response_returns_zeros_on_unverified batch_typehash_is_distinct_from_execute_and_rotate
    receiver_magics_are_distinct_from_the_eip1271_magic
constants_suite =
    precompile_address_is_0x100 ∷ p256_order_constant_matches_spec
    ∷ p256_field_prime_constant_matches_spec ∷ half_order_is_floor_n_over_2
    ∷ eip1271_magic_value_matches_spec ∷ low_s_accepts_boundary_and_rejects_above
    ∷ scalar_bound_accepts_in_range_rejects_out_of_range
    ∷ pubkey_component_validation_rejects_extremes ∷ error_variants_are_distinct
    ∷ execute_outcome_maps_ok_to_success_with_return_bytes
    ∷ execute_outcome_maps_revert_to_failure_carrying_bytes
    ∷ execute_outcome_preserves_empty_revert_bytes ∷ eip1271_response_returns_magic_on_verified
    ∷ eip1271_response_returns_zeros_on_unverified
    ∷ batch_typehash_is_distinct_from_execute_and_rotate
    ∷ receiver_magics_are_distinct_from_the_eip1271_magic ∷ []
