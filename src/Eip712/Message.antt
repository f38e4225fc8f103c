-- ===== src/Eip712/Message.antt =====
-- The messages that the account's owner can sign, and the strings that their digests hash.
use stylus_mobile_native_aut.Base.{ℕ, List, [], ◌∷◌}
use stylus_mobile_native_aut.Bytes.{Bytes, IsU256, IsAddress}
use stylus_mobile_native_aut.Eip712.{
  execute_buf, rotate_buf, batch_buf, personal_sign_buf, call_buf, envelope_buf, domain_buf,
  compute_domain_separator, compute_execute_hash, compute_rotate_hash, compute_personal_sign_hash,
}
use stylus_mobile_native_aut.Eip712.Calls.{call_hashes, batch_digest}

pub data Message : Type 0 where
  execute : ℕ → ℕ → Bytes → ℕ → Message
  batch : List ℕ → List ℕ → List Bytes → ℕ → Message
  rotate : ℕ → ℕ → ℕ → Message
  personal_sign : ℕ → Message

-- Three arrays of one length, of addresses, words and byte strings.
abbrev pub AreCalls : List ℕ → List ℕ → List Bytes → Type 0
AreCalls [] [] [] = Unit {0}
AreCalls (to ∷ tos) (value ∷ values) (payload ∷ datas) =
    IsAddress to × IsU256 value × AreCalls tos values datas
AreCalls _ _ _ = ⊥

-- Every field fits its type.
abbrev pub IsMessage : Message → Type 0
IsMessage (execute to value payload nonce) = IsAddress to × IsU256 value × IsU256 nonce
IsMessage (batch to value payloads nonce) = AreCalls to value payloads × IsU256 nonce
IsMessage (rotate new_x new_y nonce) = IsU256 new_x × IsU256 new_y × IsU256 nonce
IsMessage (personal_sign hash) = IsU256 hash

module _ (keccak : Bytes → ℕ) where
  -- The digest that the contract computes for a message.
  abbrev pub digest_of : ℕ → ℕ → Message → ℕ
  digest_of chain_id account (execute to value payload nonce) =
      compute_execute_hash keccak chain_id account to value payload nonce
  digest_of chain_id account (batch to value payloads nonce) =
      batch_digest keccak chain_id account to value payloads nonce
  digest_of chain_id account (rotate new_x new_y nonce) =
      compute_rotate_hash keccak chain_id account new_x new_y nonce
  digest_of chain_id account (personal_sign hash) =
      compute_personal_sign_hash keccak chain_id account hash

  abbrev pub struct_buf : Message → Bytes
  struct_buf (execute to value payload nonce) = execute_buf keccak to value payload nonce
  struct_buf (batch to value payloads nonce) =
      batch_buf (keccak (call_hashes keccak to value payloads)) nonce
  struct_buf (rotate new_x new_y nonce) = rotate_buf new_x new_y nonce
  struct_buf (personal_sign hash) = personal_sign_buf hash

  -- The strings hashed for the calls of a batch.
  abbrev pub call_parts : List ℕ → List ℕ → List Bytes → List Bytes
  call_parts (to ∷ tos) (value ∷ values) (payload ∷ datas) =
      call_buf keccak to value payload ∷ (payload ∷ call_parts tos values datas)
  call_parts _ _ _ = []

  -- The strings hashed for the fields of a message.
  abbrev pub parts : Message → List Bytes
  parts (execute to value payload nonce) = payload ∷ []
  parts (batch to value payloads nonce) =
      call_hashes keccak to value payloads ∷ call_parts to value payloads
  parts (rotate new_x new_y nonce) = []
  parts (personal_sign hash) = []

  -- All strings hashed for a digest.
  abbrev pub hashed : ℕ → ℕ → Message → List Bytes
  hashed chain_id account m =
      envelope_buf (compute_domain_separator keccak chain_id account) (keccak (struct_buf m))
      ∷ (domain_buf chain_id account ∷ (struct_buf m ∷ parts m))
