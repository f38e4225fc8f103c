-- ===== src/UnitTests/Parser.antt =====
-- The unit tests of contracts/stylus/devnode-tests/src/main.rs: those of the output parser, and those of
-- the constants that are digests of texts.
use stylus_mobile_native_aut.Base.{
  ℕ, Bool, true, false, ◌&&◌, List, [], ◌∷◌, ◌++◌, Option, none, some,
}
use stylus_mobile_native_aut.Bytes.{Bytes}
use stylus_mobile_native_aut.Receivers.{bytes_eq}
use stylus_mobile_native_aut.Harness
use stylus_mobile_native_aut.Harness.{as_bytes}
use stylus_mobile_native_aut.Harness.Digests.{keccak256}
use stylus_mobile_native_aut.Harness.Output.{Text, extract_deployed_address, first_address_token}
use stylus_mobile_native_aut.Harness.Receipt.{executed_topic_hex, trim_start_0x}
use stylus_mobile_native_aut.UnitTests.{pairs}

-- `ADDR`, its digits, and `DEV`.
abbrev pub digits : Text
digits = as_bytes "a1b2c3d4e5f60718293a4b5c6d7e8f9012345678"

abbrev pub addr : Text
addr = as_bytes "0x" ++ digits

abbrev pub dev : Text
dev = as_bytes "0x3f1eae7d46d88f08fc2f8ed27fcb2ab183eb2d0e"

-- `assert_eq!` with `Some(text)` and with `None`.
abbrev finds : Text → Option Text → Bool
finds expected found = elim found [ none ↦ false | some text ↦ bytes_eq text expected ]

abbrev finds_none : Option Text → Bool
finds_none found = elim found [ none ↦ true | some text ↦ false ]

abbrev new_line : Text
new_line = 10 ∷ []

unfoldable pub extracts_from_classic_deployed_at_phrase : Bool
unfolding extract_deployed_address
extracts_from_classic_deployed_at_phrase =
    let s = as_bytes "  deployed code at address: " ++ (addr ++ new_line) in
    finds addr (extract_deployed_address s dev)

unfoldable pub extracts_from_contract_deployed_phrase : Bool
unfolding extract_deployed_address
extracts_from_contract_deployed_phrase =
    let s = as_bytes "Contract deployed at " ++ (addr ++ new_line) in
    finds addr (extract_deployed_address s dev)

unfoldable pub extracts_from_activated_and_deployed_phrase : Bool
unfolding extract_deployed_address
extracts_from_activated_and_deployed_phrase =
    let s = as_bytes "activated and deployed contract at: " ++ (addr ++ new_line) in
    finds addr (extract_deployed_address s dev)

unfoldable pub extracts_from_uppercase_0x_prefix : Bool
unfolding extract_deployed_address
extracts_from_uppercase_0x_prefix =
    let upper = as_bytes "0X" ++ digits in
    let s = as_bytes "deployed contract at " ++ (upper ++ new_line) in
    finds addr (extract_deployed_address s dev)

unfoldable pub extracts_from_comma_or_backtick_delimited : Bool
unfolding extract_deployed_address
extracts_from_comma_or_backtick_delimited =
    let s = as_bytes "`" ++ (addr ++ (as_bytes "`,deploy ok" ++ new_line)) in
    finds addr (extract_deployed_address s dev)

unfoldable pub fallback_skips_dev_wallet_for_isolated_address_line : Bool
unfolding extract_deployed_address
fallback_skips_dev_wallet_for_isolated_address_line =
    let s =
      as_bytes "from: 0x3f1Eae7D46d88F08fc2F8ed27FCb2AB183EB2d0E"
      ++ (new_line ++ (as_bytes "new: " ++ (addr ++ new_line))) in
    finds addr (extract_deployed_address s dev)

unfoldable pub fallback_skip_uses_runtime_dev_addr_not_hardcoded_constant : Bool
unfolding extract_deployed_address
fallback_skip_uses_runtime_dev_addr_not_hardcoded_constant =
    let rotated_dev = as_bytes "0xdeadbeefdeadbeefdeadbeefdeadbeefdeadbeef" in
    let s = rotated_dev ++ (new_line ++ (addr ++ new_line)) in
    let s2 = dev ++ (new_line ++ (addr ++ new_line)) in
    finds addr (extract_deployed_address s rotated_dev)
    && finds dev (extract_deployed_address s2 rotated_dev)

unfoldable pub ignores_lines_with_no_address : Bool
unfolding extract_deployed_address
ignores_lines_with_no_address =
    finds_none
      (extract_deployed_address (as_bytes "warning: untested cargo-stylus version 0.7.0") dev)

unfoldable pub ignores_short_or_long_hex_strings : Bool
unfolding extract_deployed_address
ignores_short_or_long_hex_strings =
    let short = as_bytes "deployed at 0xa1b2c3d4e5f60718293a4b5c6d7e8f90123456" in
    let long = as_bytes "deployed at 0xa1b2c3d4e5f60718293a4b5c6d7e8f9012345678ab" in
    finds_none (extract_deployed_address short dev)
    && finds_none (extract_deployed_address long dev)

unfoldable pub first_address_token_finds_well_formed_value : Bool
unfolding first_address_token
first_address_token_finds_well_formed_value =
    finds addr (first_address_token addr)
    && finds addr (first_address_token (as_bytes "noise " ++ (addr ++ as_bytes " more")))
    && finds_none (first_address_token (as_bytes "0x"))

unfoldable pub parser_suite : List Bool
unfolding extracts_from_classic_deployed_at_phrase extracts_from_contract_deployed_phrase
    extracts_from_activated_and_deployed_phrase extracts_from_uppercase_0x_prefix
    extracts_from_comma_or_backtick_delimited fallback_skips_dev_wallet_for_isolated_address_line
    fallback_skip_uses_runtime_dev_addr_not_hardcoded_constant ignores_lines_with_no_address
    ignores_short_or_long_hex_strings first_address_token_finds_well_formed_value
parser_suite =
    extracts_from_classic_deployed_at_phrase ∷ extracts_from_contract_deployed_phrase
    ∷ extracts_from_activated_and_deployed_phrase ∷ extracts_from_uppercase_0x_prefix
    ∷ extracts_from_comma_or_backtick_delimited
    ∷ fallback_skips_dev_wallet_for_isolated_address_line
    ∷ fallback_skip_uses_runtime_dev_addr_not_hardcoded_constant ∷ ignores_lines_with_no_address
    ∷ ignores_short_or_long_hex_strings ∷ first_address_token_finds_well_formed_value ∷ []

module _ (keccak : Bytes → ℕ) where
  unfoldable pub harness_domain_typehash_matches_string : Bool
  harness_domain_typehash_matches_string = bytes_eq Harness.domain_typehash (
      keccak256 keccak (
        as_bytes
          "EIP712Domain(string name,string version,uint256 chainId,address verifyingContract)"))

  unfoldable pub harness_execute_typehash_matches_string : Bool
  harness_execute_typehash_matches_string =
      bytes_eq Harness.execute_typehash
        (keccak256 keccak (as_bytes "Execute(address to,uint256 value,bytes data,uint256 nonce)"))

  unfoldable pub harness_rotate_typehash_matches_string : Bool
  harness_rotate_typehash_matches_string =
      bytes_eq Harness.rotate_typehash
        (keccak256 keccak (as_bytes "RotateOwner(uint256 newX,uint256 newY,uint256 nonce)"))

  unfoldable pub harness_name_and_version_hashes_match_strings : Bool
  harness_name_and_version_hashes_match_strings =
      bytes_eq Harness.name_hash (keccak256 keccak (as_bytes "P256Account"))
      && bytes_eq Harness.version_hash (keccak256 keccak (as_bytes "1"))

  -- `hex::decode` of lower-case digits.
  unfoldable pub harness_executed_topic_matches_event_signature : Bool
  harness_executed_topic_matches_event_signature =
      let expected = keccak256 keccak (as_bytes "Executed(address,uint256,uint256,bool,bytes)") in
      let topic = pairs (trim_start_0x executed_topic_hex) in bytes_eq topic expected

  abbrev pub harness_hashes_suite : List Bool
  harness_hashes_suite =
      harness_domain_typehash_matches_string ∷ harness_execute_typehash_matches_string
      ∷ harness_rotate_typehash_matches_string ∷ harness_name_and_version_hashes_match_strings
      ∷ harness_executed_topic_matches_event_signature ∷ []
