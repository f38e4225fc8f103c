-- ===== src/Examples/UnitTests.antt =====
-- Runs of the unit tests with keccak-256 itself, and of the search for the attributes.
use stylus_mobile_native_aut.Base.{◌≡◌, refl, true, false, ◌++◌}
use stylus_mobile_native_aut.Bytes.{Bytes, to_be_bytes, from_be_bytes}
use stylus_mobile_native_aut.Examples.Keccak.{keccak_256}
use stylus_mobile_native_aut.Eip712.{
  compute_execute_hash, compute_rotate_hash, compute_batch_hash, concatenate_calls,
  compute_personal_sign_hash, eip712_envelope, compute_domain_separator, envelope_buf, domain_buf,
  execute_buf, rotate_buf, batch_buf, call_buf, personal_sign_buf,
}
use stylus_mobile_native_aut.Harness
use stylus_mobile_native_aut.Harness.{as_bytes, const_hex_to_32, hex_loop, hex_nibble}
use stylus_mobile_native_aut.Harness.Output.{contains, starts_with}
use stylus_mobile_native_aut.UnitTests.Selectors.{
  selector_overrides_for_the_token_hooks_are_present_in_source,
}
use stylus_mobile_native_aut.Harness.Receipt.{trim_start_0x}
use stylus_mobile_native_aut.UnitTests.Parser.{
  harness_hashes_suite, harness_domain_typehash_matches_string,
  harness_execute_typehash_matches_string, harness_rotate_typehash_matches_string,
  harness_name_and_version_hashes_match_strings, harness_executed_topic_matches_event_signature,
}
use stylus_mobile_native_aut.UnitTests.Separation.{
  separation_suite, execute_hash_is_domain_separated,
  rotate_hash_is_domain_separated_and_distinct_from_execute, batch_hash_is_domain_separated,
  batch_hash_is_order_sensitive, batch_hash_binds_every_field_of_every_call,
  single_call_batch_does_not_collide_with_execute,
  an_execute_digest_presented_as_a_1271_challenge_no_longer_round_trips,
  personal_sign_is_domain_separated, personal_sign_cannot_collide_with_any_authorisation_hash,
  wrapped_differs,
}
use stylus_mobile_native_aut.UnitTests.{all_pass, u}
use stylus_mobile_native_aut.UnitTests.TypeHashes.{
  type_hashes_suite, domain_typehash_matches_string, execute_typehash_matches_string,
  rotate_typehash_matches_string, name_and_version_hashes_match_strings,
  batch_typehash_matches_string, call_typehash_matches_string,
  personal_sign_typehash_matches_string, receiver_magic_values_match_their_signatures,
}

type_hashes_pass : all_pass (type_hashes_suite keccak_256) ≡ true
unfolding domain_typehash_matches_string execute_typehash_matches_string
    rotate_typehash_matches_string name_and_version_hashes_match_strings
    batch_typehash_matches_string call_typehash_matches_string personal_sign_typehash_matches_string
    receiver_magic_values_match_their_signatures keccak_256 to_be_bytes from_be_bytes
type_hashes_pass = refl

harness_hashes_pass : all_pass (harness_hashes_suite keccak_256) ≡ true
unfolding harness_domain_typehash_matches_string harness_execute_typehash_matches_string
    harness_rotate_typehash_matches_string harness_name_and_version_hashes_match_strings
    harness_executed_topic_matches_event_signature Harness.domain_typehash Harness.execute_typehash
    Harness.rotate_typehash Harness.name_hash Harness.version_hash const_hex_to_32 hex_loop
    hex_nibble keccak_256 to_be_bytes from_be_bytes trim_start_0x
harness_hashes_pass = refl

separation_pass : all_pass (separation_suite keccak_256) ≡ true
unfolding execute_hash_is_domain_separated rotate_hash_is_domain_separated_and_distinct_from_execute
    batch_hash_is_domain_separated batch_hash_is_order_sensitive
    batch_hash_binds_every_field_of_every_call single_call_batch_does_not_collide_with_execute
    an_execute_digest_presented_as_a_1271_challenge_no_longer_round_trips
    personal_sign_is_domain_separated personal_sign_cannot_collide_with_any_authorisation_hash
    wrapped_differs keccak_256 to_be_bytes from_be_bytes compute_execute_hash compute_rotate_hash
    compute_batch_hash concatenate_calls compute_personal_sign_hash eip712_envelope
    compute_domain_separator envelope_buf domain_buf execute_buf rotate_buf batch_buf call_buf
    personal_sign_buf u
separation_pass = refl

-- The lines of the contract's source that carry the attributes.
abbrev attribute_lines : Bytes
attribute_lines =
    as_bytes "    #[selector(name = \"onERC721Received\")]\n"
    ++ (as_bytes "    #[selector(name = \"onERC1155Received\")]\n"
        ++ as_bytes "    #[selector(name = \"onERC1155BatchReceived\")]\n")

-- The test passes on these lines, and fails without the second.
selectors_present :
    selector_overrides_for_the_token_hooks_are_present_in_source attribute_lines ≡ true
unfolding selector_overrides_for_the_token_hooks_are_present_in_source contains starts_with
selectors_present = refl

selector_missing :
    selector_overrides_for_the_token_hooks_are_present_in_source (
      as_bytes
        "#[selector(name = \"onERC721Received\")] #[selector(name = \"onERC1155BatchReceived\")]")
    ≡ false
unfolding selector_overrides_for_the_token_hooks_are_present_in_source contains starts_with
selector_missing = refl
