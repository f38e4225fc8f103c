-- ===== src/Eip712/Batch.antt =====
-- The digest of a batch whose three arrays have one length, against EIP-712.
use stylus_mobile_native_aut.Base.{ℕ, ◌≡◌, List, [], ◌∷◌, ◌++◌, some, length, refl, ap, ap₂, ◌∙◌}
use stylus_mobile_native_aut.Bytes.{Bytes, to_be_bytes, zeros}
use stylus_mobile_native_aut.Eip712.{
  word, compute_batch_hash, compute_domain_separator, eip712_envelope,
}
use stylus_mobile_native_aut.Eip712.Calls.{
  call_hashes, batch_digest, compute_batch_hash-batch_digest,
}
use stylus_mobile_native_aut.Eip712.Layout.{
  envelope_layout, domain_layout, batch_layout, call_layout,
}

-- The encodings of EIP-712, stated apart from the buffers that the code fills: a number as a `uint256`
-- and an address fill 32 bytes each, and the type hashes are literal.
abbrev address_word : ℕ → Bytes
address_word account = zeros 12 ++ to_be_bytes 20 account

module _ (keccak : Bytes → ℕ) where
  -- `hashStruct` of `Call(address to,uint256 value,bytes data)`.
  abbrev call_struct_hash : ℕ → ℕ → Bytes → ℕ
  call_struct_hash to value payload = keccak (
      word 0x9085b19ea56248c94d86174b3784cfaaa8673d1041d6441f61ff52752dac8483
      ++ (address_word to ++ (word value ++ word (keccak payload))))

  -- The concatenation of `hashStruct` of each call, as EIP-712 states it for an array.
  abbrev typed_calls : List ℕ → List ℕ → List Bytes → Bytes
  typed_calls (to ∷ tos) (value ∷ values) (payload ∷ datas) =
      word (call_struct_hash to value payload) ++ typed_calls tos values datas
  typed_calls _ _ _ = []

  -- `hashStruct` of a batch: its type hash, the hash of its calls, its nonce.
  abbrev batch_struct_hash : List ℕ → List ℕ → List Bytes → ℕ → ℕ
  batch_struct_hash to value payloads nonce = keccak (
      word 0xe4c4e9c11a8826c10f239085bcd6b1f837ac8891ef69510451fb4e86df1ff4fb
      ++ (word (keccak (typed_calls to value payloads)) ++ word nonce))

  -- The domain separator: type hash, name, version, chain id of 64 bits, contract.
  abbrev domain : ℕ → ℕ → ℕ
  domain chain_id account = keccak (
      word 0x8b73c3c69bb8fe3d512ecc4cf759cc79239f7b179b0ffacaa9a75d522b39400f
      ++ (word 0x0b72970e1618929986bf5a7d529c51922dac77346c4b37b8a99a57436d812f1d
          ++ (word 0xc89efdaa54c0f20c7adf612882df0950f5a951637e0307cdcb4c672f298b8bc6
              ++ ((zeros 24 ++ to_be_bytes 8 chain_id) ++ address_word account))))

  -- The digest of a batch, as EIP-712 states it.
  abbrev pub typed_batch_digest : ℕ → ℕ → List ℕ → List ℕ → List Bytes → ℕ → ℕ
  typed_batch_digest chain_id account to value payloads nonce = keccak (
      0x19
      ∷ 0x01
      ∷ (word (domain chain_id account) ++ word (batch_struct_hash to value payloads nonce)))

  call_hashes_lem :
      (to value : List ℕ) (payloads : List Bytes)
      → call_hashes keccak to value payloads ≡ typed_calls to value payloads
  call_hashes_lem (t ∷ ts) (v ∷ vs) (d ∷ ds) =
      ap₂ (λ h hs. word (keccak h) ++ hs) (call_layout keccak t v d) (call_hashes_lem ts vs ds)
  call_hashes_lem [] value payloads = refl
  call_hashes_lem (t ∷ ts) [] payloads = refl
  call_hashes_lem (t ∷ ts) (v ∷ vs) [] = refl

  batch_digest_lem :
      (chain_id account : ℕ) (to value : List ℕ) (payloads : List Bytes) (nonce : ℕ)
      → batch_digest keccak chain_id account to value payloads nonce
        ≡ typed_batch_digest chain_id account to value payloads nonce
  unfolding eip712_envelope compute_domain_separator
  batch_digest_lem chain_id account to value payloads nonce =
      rw (envelope_layout, domain_layout, batch_layout, call_hashes_lem to value payloads)

  -- For three arrays of one length `compute_batch_hash` does not panic, and gives the EIP-712 digest
  -- of the batch: the hash of 0x19 0x01, the domain separator and the batch's `hashStruct`, which
  -- covers the nonce and, by the hash of their `hashStruct`s in order, the target, value and data of
  -- every call.
  pub compute_batch_hash_total :
      (chain_id account : ℕ) (to value : List ℕ) (payloads : List Bytes) (nonce : ℕ)
      → length value ≡ length to
      → length payloads ≡ length to
      → compute_batch_hash keccak chain_id account to value payloads nonce
        ≡ some (typed_batch_digest chain_id account to value payloads nonce)
  compute_batch_hash_total chain_id account to value payloads nonce e f =
      compute_batch_hash-batch_digest keccak chain_id account to value payloads nonce e f
      ∙ ap some (batch_digest_lem chain_id account to value payloads nonce)
