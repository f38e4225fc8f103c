-- ===== src/Eip712.antt =====
-- The EIP-712 digests of contracts/stylus/p256-account/src/lib.rs: the type hashes and the
-- `compute_*_hash` functions, each with the byte buffers that it fills. keccak-256 is a parameter.
pub mod Layout
pub mod Calls
pub mod Batch
pub mod Collision
pub mod Message
pub mod Fields
pub mod Binding
use stylus_mobile_native_aut.Base.{ℕ, suc, ◌+◌, Option, none, some, List, [], ◌∷◌, ◌++◌}
use stylus_mobile_native_aut.Bytes.{Bytes, to_be_bytes, zeros, copy_from_slice}

abbrev pub domain_typehash : ℕ
domain_typehash = 0x8b73c3c69bb8fe3d512ecc4cf759cc79239f7b179b0ffacaa9a75d522b39400f

abbrev pub execute_typehash : ℕ
execute_typehash = 0x5e61180c786157773cdb1e3aff8dd66149b93ea36e48bf5e28f0fcf3895a1c9c

abbrev pub rotate_typehash : ℕ
rotate_typehash = 0x8f4436f69e71ad0ae17d640b65201039c4d90422d319e1151cf92d223086b47a

abbrev pub batch_typehash : ℕ
batch_typehash = 0xe4c4e9c11a8826c10f239085bcd6b1f837ac8891ef69510451fb4e86df1ff4fb

abbrev pub personal_sign_typehash : ℕ
personal_sign_typehash = 0x2431bd832cbb131f8882ef79f68ed6ae065cca9270f5bce0f2e4f75a9cd814b7

abbrev pub call_typehash : ℕ
call_typehash = 0x9085b19ea56248c94d86174b3784cfaaa8673d1041d6441f61ff52752dac8483

abbrev pub name_hash : ℕ
name_hash = 0x0b72970e1618929986bf5a7d529c51922dac77346c4b37b8a99a57436d812f1d

abbrev pub version_hash : ℕ
version_hash = 0xc89efdaa54c0f20c7adf612882df0950f5a951637e0307cdcb4c672f298b8bc6

-- `as_slice` of a `B256`, `to_be_bytes::<32>` of a `U256`.
abbrev pub word : ℕ → Bytes
word = to_be_bytes 32

-- The buffer of `compute_domain_separator`.
unfoldable pub domain_buf : ℕ → ℕ → Bytes
domain_buf chain_id account =
    let typed = copy_from_slice 0 32 (word domain_typehash) (zeros 160) in
    let named = copy_from_slice 32 64 (word name_hash) typed in
    let versioned = copy_from_slice 64 96 (word version_hash) named in
    let chained = copy_from_slice 120 128 (to_be_bytes 8 chain_id) versioned in
    copy_from_slice 140 160 (to_be_bytes 20 account) chained

-- The buffer of `compute_personal_sign_hash`.
unfoldable pub personal_sign_buf : ℕ → Bytes
personal_sign_buf hash =
    let typed = copy_from_slice 0 32 (word personal_sign_typehash) (zeros 64) in
    copy_from_slice 32 64 (word hash) typed

-- The buffer of `compute_rotate_hash`.
unfoldable pub rotate_buf : ℕ → ℕ → ℕ → Bytes
rotate_buf new_x new_y nonce =
    let typed = copy_from_slice 0 32 (word rotate_typehash) (zeros 128) in
    let with_x = copy_from_slice 32 64 (word new_x) typed in
    let with_y = copy_from_slice 64 96 (word new_y) with_x in
    copy_from_slice 96 128 (word nonce) with_y

-- `struct_buf` of `compute_batch_hash`.
unfoldable pub batch_buf : ℕ → ℕ → Bytes
batch_buf calls_hash nonce =
    let typed = copy_from_slice 0 32 (word batch_typehash) (zeros 96) in
    let with_calls = copy_from_slice 32 64 (word calls_hash) typed in
    copy_from_slice 64 96 (word nonce) with_calls

-- The buffer of `eip712_envelope`.
unfoldable pub envelope_buf : ℕ → ℕ → Bytes
envelope_buf domain struct_hash =
    let marked = copy_from_slice 0 1 (0x19 ∷ []) (zeros 66) in
    let versioned = copy_from_slice 1 2 (0x01 ∷ []) marked in
    let with_domain = copy_from_slice 2 34 (word domain) versioned in
    copy_from_slice 34 66 (word struct_hash) with_domain

module _ (keccak : Bytes → ℕ) where
  -- `struct_buf` of `compute_execute_hash`.
  unfoldable pub execute_buf : ℕ → ℕ → Bytes → ℕ → Bytes
  execute_buf to value payload nonce =
      let data_hash = keccak payload in
      let typed = copy_from_slice 0 32 (word execute_typehash) (zeros 160) in
      let with_to = copy_from_slice 44 64 (to_be_bytes 20 to) typed in
      let with_value = copy_from_slice 64 96 (word value) with_to in
      let with_data = copy_from_slice 96 128 (word data_hash) with_value in
      copy_from_slice 128 160 (word nonce) with_data

  -- `call_buf` of `compute_batch_hash`.
  unfoldable pub call_buf : ℕ → ℕ → Bytes → Bytes
  call_buf to value payload =
      let data_hash = keccak payload in
      let typed = copy_from_slice 0 32 (word call_typehash) (zeros 128) in
      let with_to = copy_from_slice 44 64 (to_be_bytes 20 to) typed in
      let with_value = copy_from_slice 64 96 (word value) with_to in
      copy_from_slice 96 128 (word data_hash) with_value

  unfoldable pub compute_domain_separator : ℕ → ℕ → ℕ
  compute_domain_separator chain_id account = keccak (domain_buf chain_id account)

  unfoldable pub eip712_envelope : ℕ → ℕ → ℕ → ℕ
  eip712_envelope chain_id account struct_hash =
      let domain = compute_domain_separator chain_id account in
      keccak (envelope_buf domain struct_hash)

  unfoldable pub compute_personal_sign_hash : ℕ → ℕ → ℕ → ℕ
  compute_personal_sign_hash chain_id account hash =
      let struct_hash = keccak (personal_sign_buf hash) in
      eip712_envelope chain_id account struct_hash

  unfoldable pub compute_execute_hash : ℕ → ℕ → ℕ → ℕ → Bytes → ℕ → ℕ
  compute_execute_hash chain_id account to value payload nonce =
      let struct_hash = keccak (execute_buf to value payload nonce) in
      eip712_envelope chain_id account struct_hash

  unfoldable pub compute_rotate_hash : ℕ → ℕ → ℕ → ℕ → ℕ → ℕ
  compute_rotate_hash chain_id account new_x new_y nonce =
      let struct_hash = keccak (rotate_buf new_x new_y nonce) in
      eip712_envelope chain_id account struct_hash

  -- The loop of `compute_batch_hash` over `0..to.len()`, which fills `concatenated`. Indexing
  -- `value[i]` or `data[i]` out of range panics: `none`.
  unfoldable pub concatenate_calls : List ℕ → List ℕ → List Bytes → Bytes → Option Bytes
  concatenate_calls [] values datas concatenated = some concatenated
  concatenate_calls (to ∷ tos) [] datas concatenated = none
  concatenate_calls (to ∷ tos) (value ∷ values) [] concatenated = none
  concatenate_calls (to ∷ tos) (value ∷ values) (payload ∷ datas) concatenated =
      concatenate_calls tos values datas (concatenated ++ word (keccak (call_buf to value payload)))

  unfoldable pub compute_batch_hash : ℕ → ℕ → List ℕ → List ℕ → List Bytes → ℕ → Option ℕ
  compute_batch_hash chain_id account to value payloads nonce =
      elim (concatenate_calls to value payloads []) [
        | none ↦ none
        | some concatenated ↦
            some (eip712_envelope chain_id account (keccak (batch_buf (keccak concatenated) nonce)))
      ]
