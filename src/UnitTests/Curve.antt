-- ===== src/UnitTests/Curve.antt =====
-- The tests of the constructor's check, of the shape of a batch and of curve membership.
use stylus_mobile_native_aut.Base.{◌+◌, Bool, false, ◌&&◌, not, List, [], ◌∷◌, ◌==◌, err}
use stylus_mobile_native_aut.Bytes.{from_be_bytes}
use stylus_mobile_native_aut.P256.{p256_b, is_on_curve, sub_u256}
use stylus_mobile_native_aut.Errors.{is_ok, invalid_public_key, invalid_batch}
use stylus_mobile_native_aut.Validators.{
  max_batch_calls, validate_constructor_args, validate_batch_shape,
}
use stylus_mobile_native_aut.UnitTests.{fails_as, is_err, add_u256, prime, u, gx, gy, g2x, g2y}

unfoldable pub constructor_rejects_zero_x : Bool
unfolding validate_constructor_args
constructor_rejects_zero_x = fails_as invalid_public_key (validate_constructor_args 0 1)

unfoldable pub constructor_rejects_zero_y : Bool
unfolding validate_constructor_args
constructor_rejects_zero_y = fails_as invalid_public_key (validate_constructor_args 1 0)

unfoldable pub constructor_rejects_x_at_p : Bool
unfolding validate_constructor_args
constructor_rejects_x_at_p = fails_as invalid_public_key (validate_constructor_args prime 1)

unfoldable pub constructor_rejects_y_at_p : Bool
unfolding validate_constructor_args
constructor_rejects_y_at_p = fails_as invalid_public_key (validate_constructor_args 1 prime)

unfoldable pub constructor_rejects_when_both_are_invalid : Bool
unfolding validate_constructor_args
constructor_rejects_when_both_are_invalid =
    fails_as invalid_public_key (validate_constructor_args 0 0)

unfoldable pub constructor_accepts_in_range_pubkey : Bool
unfolding validate_constructor_args u
constructor_accepts_in_range_pubkey =
    let p_minus_1 = sub_u256 prime 1 in
    is_ok (validate_constructor_args (u gx) (u gy))
    && fails_as invalid_public_key (validate_constructor_args p_minus_1 p_minus_1)

unfoldable pub batch_shape_rejects_empty_mismatched_and_oversized : Bool
unfolding validate_batch_shape
batch_shape_rejects_empty_mismatched_and_oversized =
    let over = max_batch_calls + 1 in
    is_err (validate_batch_shape 0 0 0)
    && is_err (validate_batch_shape 2 1 2)
    && is_err (validate_batch_shape 2 2 1)
    && is_err (validate_batch_shape over over over)
    && is_ok (validate_batch_shape 1 1 1)
    && is_ok (validate_batch_shape max_batch_calls max_batch_calls max_batch_calls)

unfoldable pub batch_shape_error_carries_all_three_lengths : Bool
unfolding validate_batch_shape
batch_shape_error_carries_all_three_lengths = elim (validate_batch_shape 3 2 1) [
  | err (invalid_batch calls values datas) ↦ (calls == 3) && (values == 2) && (datas == 1)
  | _ ↦ false
]

unfoldable pub curve_b_constant_matches_the_standard : Bool
unfolding from_be_bytes u
curve_b_constant_matches_the_standard =
    from_be_bytes p256_b == u "5ac635d8aa3a93e7b3ebbd55769886bc651d06b0cc53b0f63bce3c3e27d2604b"

unfoldable pub generator_and_double_are_on_curve : Bool
unfolding is_on_curve u
generator_and_double_are_on_curve = is_on_curve (u gx) (u gy) && is_on_curve (u g2x) (u g2y)

unfoldable pub perturbing_either_coordinate_leaves_the_curve : Bool
unfolding is_on_curve u
perturbing_either_coordinate_leaves_the_curve =
    let x = u gx in
    let y = u gy in
    not (is_on_curve (add_u256 x 1) y)
    && not (is_on_curve x (add_u256 y 1))
    && not (is_on_curve y x)

unfoldable pub negated_y_is_still_on_curve : Bool
unfolding is_on_curve u
negated_y_is_still_on_curve = is_on_curve (u gx) (sub_u256 prime (u gy))

unfoldable pub constructor_rejects_off_curve_and_accepts_the_generator : Bool
unfolding validate_constructor_args u
constructor_rejects_off_curve_and_accepts_the_generator =
    is_ok (validate_constructor_args (u gx) (u gy))
    && fails_as invalid_public_key (validate_constructor_args (u gx) (add_u256 (u gy) 1))

unfoldable pub curve_suite : List Bool
unfolding constructor_rejects_zero_x constructor_rejects_zero_y constructor_rejects_x_at_p
    constructor_rejects_y_at_p constructor_rejects_when_both_are_invalid
    constructor_accepts_in_range_pubkey batch_shape_rejects_empty_mismatched_and_oversized
    batch_shape_error_carries_all_three_lengths curve_b_constant_matches_the_standard
    generator_and_double_are_on_curve perturbing_either_coordinate_leaves_the_curve
    negated_y_is_still_on_curve constructor_rejects_off_curve_and_accepts_the_generator
curve_suite =
    constructor_rejects_zero_x ∷ constructor_rejects_zero_y ∷ constructor_rejects_x_at_p
    ∷ constructor_rejects_y_at_p ∷ constructor_rejects_when_both_are_invalid
    ∷ constructor_accepts_in_range_pubkey ∷ batch_shape_rejects_empty_mismatched_and_oversized
    ∷ batch_shape_error_carries_all_three_lengths ∷ curve_b_constant_matches_the_standard
    ∷ generator_and_double_are_on_curve ∷ perturbing_either_coordinate_leaves_the_curve
    ∷ negated_y_is_still_on_curve ∷ constructor_rejects_off_curve_and_accepts_the_generator ∷ []
