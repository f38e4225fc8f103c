-- ===== src/UnitTests/Layouts.antt =====
-- The tests of the byte layouts that are hashed or sent, and of the length error.
use stylus_mobile_native_aut.Base.{
  ℕ, Bool, false, ◌&&◌, List, [], ◌∷◌, ◌++◌, ◌==◌, length, replicate,
}
use stylus_mobile_native_aut.Bytes.{Bytes, zeros, copy_from_slice}
use stylus_mobile_native_aut.Eip712.{word, compute_domain_separator, eip712_envelope}
use stylus_mobile_native_aut.Errors.{invalid_signature_length}
use stylus_mobile_native_aut.Receivers.{bytes_eq}
use stylus_mobile_native_aut.UnitTests.{address_of, b256_of}

-- Five words copied one after the other into 160 zero bytes.
abbrev filled : Bytes → ℕ → ℕ → ℕ → ℕ → Bytes
filled hash r s x y =
    let with_hash = copy_from_slice 0 32 hash (zeros 160) in
    let with_r = copy_from_slice 32 64 (word r) with_hash in
    let with_s = copy_from_slice 64 96 (word s) with_r in
    let with_x = copy_from_slice 96 128 (word x) with_s in copy_from_slice 128 160 (word y) with_x

unfoldable pub precompile_input_layout_is_hash_r_s_x_y : Bool
precompile_input_layout_is_hash_r_s_x_y =
    let expected = filled (replicate 32 0x11) 0x22 0x33 0x44 0x55 in
    let input = filled (word (b256_of 0x11)) 0x22 0x33 0x44 0x55 in
    bytes_eq input expected && (length input == 160)

unfoldable pub invalid_signature_length_is_uint64_and_carries_value : Bool
invalid_signature_length_is_uint64_and_carries_value = elim (invalid_signature_length 42) [
  | invalid_signature_length got ↦ got == 42
  | _ ↦ false
]

module _ (keccak : Bytes → ℕ) where
  unfoldable pub eip712_envelope_matches_manual_construction : Bool
  eip712_envelope_matches_manual_construction =
      let acct = address_of 0x42 in
      let struct_hash = b256_of 0xAB in
      let got = eip712_envelope keccak 42161 acct struct_hash in
      let domain = compute_domain_separator keccak 42161 acct in
      let manual = 0x19 ∷ (0x01 ∷ (word domain ++ word struct_hash)) in got == keccak manual

  unfoldable pub layouts_suite : List Bool
  unfolding precompile_input_layout_is_hash_r_s_x_y
      invalid_signature_length_is_uint64_and_carries_value
      eip712_envelope_matches_manual_construction
  layouts_suite =
      precompile_input_layout_is_hash_r_s_x_y ∷ invalid_signature_length_is_uint64_and_carries_value
      ∷ eip712_envelope_matches_manual_construction ∷ []
