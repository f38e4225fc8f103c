-- ===== src/UnitTests/TypeHashes.antt =====
-- The tests of the constants that are digests of texts.
use stylus_mobile_native_aut.Base.{ℕ, Bool, ◌&&◌, List, [], ◌∷◌, ◌==◌}
use stylus_mobile_native_aut.Bytes.{Bytes, slice}
use stylus_mobile_native_aut.Eip712.{
  word, domain_typehash, execute_typehash, rotate_typehash, batch_typehash, call_typehash,
  personal_sign_typehash, name_hash, version_hash,
}
use stylus_mobile_native_aut.Harness.{as_bytes}
use stylus_mobile_native_aut.Receivers.{
  bytes_eq, erc721_received_magic, erc1155_received_magic, erc1155_batch_received_magic,
}

module _ (keccak : Bytes → ℕ) where
  unfoldable pub domain_typehash_matches_string : Bool
  domain_typehash_matches_string =
      let expected = keccak (
        as_bytes
          "EIP712Domain(string name,string version,uint256 chainId,address verifyingContract)") in
      domain_typehash == expected

  unfoldable pub execute_typehash_matches_string : Bool
  execute_typehash_matches_string =
      let expected =
        keccak (as_bytes "Execute(address to,uint256 value,bytes data,uint256 nonce)") in
      execute_typehash == expected

  unfoldable pub rotate_typehash_matches_string : Bool
  rotate_typehash_matches_string =
      let expected = keccak (as_bytes "RotateOwner(uint256 newX,uint256 newY,uint256 nonce)") in
      rotate_typehash == expected

  unfoldable pub name_and_version_hashes_match_strings : Bool
  name_and_version_hashes_match_strings =
      (name_hash == keccak (as_bytes "P256Account")) && (version_hash == keccak (as_bytes "1"))

  unfoldable pub batch_typehash_matches_string : Bool
  batch_typehash_matches_string =
      let expected = keccak (
        as_bytes
          "BatchExecute(Call[] calls,uint256 nonce)Call(address to,uint256 value,bytes data)") in
      batch_typehash == expected

  unfoldable pub call_typehash_matches_string : Bool
  call_typehash_matches_string =
      let expected = keccak (as_bytes "Call(address to,uint256 value,bytes data)") in
      call_typehash == expected

  unfoldable pub personal_sign_typehash_matches_string : Bool
  personal_sign_typehash_matches_string =
      personal_sign_typehash == keccak (as_bytes "PersonalSign(bytes32 hash)")

  -- The first four bytes of a text's digest.
  abbrev selector : Bytes → Bytes
  selector text = slice 0 4 (word (keccak text))

  unfoldable pub receiver_magic_values_match_their_signatures : Bool
  receiver_magic_values_match_their_signatures =
      bytes_eq erc721_received_magic
        (selector (as_bytes "onERC721Received(address,address,uint256,bytes)"))
      && bytes_eq erc1155_received_magic
          (selector (as_bytes "onERC1155Received(address,address,uint256,uint256,bytes)"))
      && bytes_eq erc1155_batch_received_magic
          (selector (as_bytes "onERC1155BatchReceived(address,address,uint256[],uint256[],bytes)"))

  abbrev pub type_hashes_suite : List Bool
  type_hashes_suite =
      domain_typehash_matches_string ∷ execute_typehash_matches_string
      ∷ rotate_typehash_matches_string ∷ name_and_version_hashes_match_strings
      ∷ batch_typehash_matches_string ∷ call_typehash_matches_string
      ∷ personal_sign_typehash_matches_string ∷ receiver_magic_values_match_their_signatures ∷ []
