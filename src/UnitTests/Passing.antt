-- ===== src/UnitTests/Passing.antt =====
-- The outcome of the unit tests that no property of the hash function decides.
use stylus_mobile_native_aut.Base.{ℕ, ◌≡◌, refl, true, Bool, List, [], ◌∷◌, ◌==◌, arith, ◌++◌}
use stylus_mobile_native_aut.Receivers.Interfaces.{bytes_eq_refl}
use stylus_mobile_native_aut.Bytes.{Bytes, from_be_bytes, to_be_bytes}
use stylus_mobile_native_aut.P256.{
  is_valid_scalar, is_low_s, is_valid_pubkey, is_valid_pubkey_component, is_on_curve,
}
use stylus_mobile_native_aut.Signature.{precompile_input}
use stylus_mobile_native_aut.UnitTests.Build.{validate_p256_signature}
use stylus_mobile_native_aut.Signature.Shim.{Cells}
use stylus_mobile_native_aut.UnitTests.{all_pass}
use stylus_mobile_native_aut.UnitTests.Constants.{constants_suite}
use stylus_mobile_native_aut.Base.{◌&&◌}
use stylus_mobile_native_aut.Bytes.{slice}
use stylus_mobile_native_aut.Eip712.{
  word, compute_execute_hash, compute_rotate_hash, eip712_envelope, envelope_buf,
}
use stylus_mobile_native_aut.Errors.{is_ok}
use stylus_mobile_native_aut.Signature.Shim.{expect_next, clear}
use stylus_mobile_native_aut.UnitTests.{saw, well_formed_sig}
use stylus_mobile_native_aut.UnitTests.Requests.{
  fixture_execute_request, fixture_rotation_request, dispatch_suite,
}
use stylus_mobile_native_aut.UnitTests.Layouts.{layouts_suite}
use stylus_mobile_native_aut.UnitTests.Parser.{parser_suite}
use stylus_mobile_native_aut.Harness.Output.{
  isolated, lines, split, address_of_token, first_address_token, announced, contains, starts_with,
}
use stylus_mobile_native_aut.Harness.Receipt.{eq_ignore_ascii_case}
use stylus_mobile_native_aut.UnitTests.Curve.{curve_suite}
use stylus_mobile_native_aut.UnitTests.Signatures.{signatures_suite}
use stylus_mobile_native_aut.UnitTests.Requests.{requests_suite}

constants_pass : all_pass constants_suite ≡ true
unfolding constants_suite
constants_pass = refl

curve_pass : all_pass curve_suite ≡ true
unfolding curve_suite is_valid_pubkey is_valid_pubkey_component is_on_curve
curve_pass = refl

signatures_pass : (cells : Cells) → all_pass (signatures_suite cells) ≡ true
unfolding signatures_suite is_valid_scalar is_low_s from_be_bytes precompile_input to_be_bytes
signatures_pass cells = refl

requests_pass : (keccak : Bytes → ℕ) (cells : Cells) → all_pass (requests_suite keccak cells) ≡ true
unfolding requests_suite is_valid_scalar is_low_s from_be_bytes precompile_input to_be_bytes
    is_valid_pubkey is_valid_pubkey_component is_on_curve validate_p256_signature
requests_pass keccak cells = refl

input_hash : (hash r s x y : ℕ) → slice 0 32 (precompile_input hash r s x y) ≡ word hash
unfolding precompile_input to_be_bytes
input_hash hash r s x y = refl

-- A check that the stand-in accepts leaves the hash in the cell.
dispatched :
    (hash x y : ℕ) (cells : Cells)
    → let (checked, used) =
        validate_p256_signature hash well_formed_sig x y (expect_next true (clear cells)) in
      (is_ok checked && saw 0 32 (word hash) used) ≡ true
unfolding validate_p256_signature is_valid_scalar is_low_s from_be_bytes expect_next clear
dispatched hash x y cells = rw (input_hash hash 1 1 x y) (bytes_eq_refl (word hash))

dispatch_pass : (keccak : Bytes → ℕ) (cells : Cells) → all_pass (dispatch_suite keccak cells) ≡ true
unfolding dispatch_suite is_valid_pubkey is_valid_pubkey_component is_on_curve from_be_bytes
dispatch_pass keccak cells =
    let execution = fixture_execute_request well_formed_sig in
    let rotation = fixture_rotation_request well_formed_sig in
    let first =
      dispatched
        (compute_execute_hash keccak execution.chain_id execution.account execution.to
          execution.value execution.payload execution.nonce)
        execution.owner_x execution.owner_y cells in
    let second =
      dispatched
        (compute_rotate_hash keccak rotation.chain_id rotation.account rotation.new_x rotation.new_y
          rotation.nonce)
        rotation.owner_x rotation.owner_y cells in
    rw (first, second) refl

same_number : (a b : ℕ) → a ≡ b → (a == b) ≡ true
same_number a b e = ground arith

parser_pass : all_pass parser_suite ≡ true
unfolding parser_suite isolated lines split address_of_token first_address_token announced contains
    starts_with eq_ignore_ascii_case
parser_pass = refl

layouts_pass : (keccak : Bytes → ℕ) → all_pass (layouts_suite keccak) ≡ true
unfolding layouts_suite eip712_envelope envelope_buf to_be_bytes from_be_bytes
layouts_pass keccak = rw (same_number _ _ refl) refl

all_pass-append :
    (ss ts : List Bool) → all_pass ss ≡ true → all_pass ts ≡ true → all_pass (ss ++ ts) ≡ true
all_pass-append [] ts e f = f
all_pass-append (s ∷ ss) ts e f = ground (arith, all_pass-append ss ts)

-- The unit tests whose outcome is the same for every hash function.
abbrev unit_tests : (Bytes → ℕ) → Cells → List Bool
unit_tests keccak cells =
    constants_suite
    ++ (curve_suite
        ++ (parser_suite
            ++ (layouts_suite keccak
                ++ (signatures_suite cells
                    ++ (requests_suite keccak cells ++ dispatch_suite keccak cells)))))

-- The unit tests that neither hash a text nor compare digests of different messages, 57 of the
-- contract's and the 10 of the harness's output parser, pass, whatever the hash function, and whatever
-- earlier tests on the same thread left in the cells of the stand-in.
unit_tests_pass : (keccak : Bytes → ℕ) (cells : Cells) → all_pass (unit_tests keccak cells) ≡ true
unit_tests_pass keccak cells = all_pass-append constants_suite _ constants_pass (
    all_pass-append curve_suite _ curve_pass (
      all_pass-append parser_suite _ parser_pass (
        all_pass-append (layouts_suite keccak) _ (layouts_pass keccak) (
          all_pass-append (signatures_suite cells) _ (signatures_pass cells) (
            all_pass-append (requests_suite keccak cells) _ (requests_pass keccak cells)
              (dispatch_pass keccak cells))))))
