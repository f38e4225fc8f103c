-- ===== src/Harness/Digests.antt =====
-- The digest builders of the harness against those of the contract.
use stylus_mobile_native_aut.Base.{ℕ, ◌≡◌, refl}
use stylus_mobile_native_aut.Bytes.{Bytes, to_be_bytes}
use stylus_mobile_native_aut.Eip712
use stylus_mobile_native_aut.Eip712.{
  word, domain_buf, execute_buf, rotate_buf, envelope_buf, compute_execute_hash,
  compute_rotate_hash, eip712_envelope, compute_domain_separator,
}
use stylus_mobile_native_aut.Harness.{
  domain_typehash, execute_typehash, rotate_typehash, name_hash, version_hash, domain_separator,
  envelope, execute_hash, rotate_hash,
}

-- The constants of the harness are the bytes of the contract's.
domain_typehash_value : domain_typehash ≡ word Eip712.domain_typehash
unfolding domain_typehash to_be_bytes
domain_typehash_value = refl

execute_typehash_value : execute_typehash ≡ word Eip712.execute_typehash
unfolding execute_typehash to_be_bytes
execute_typehash_value = refl

rotate_typehash_value : rotate_typehash ≡ word Eip712.rotate_typehash
unfolding rotate_typehash to_be_bytes
rotate_typehash_value = refl

name_hash_value : name_hash ≡ word Eip712.name_hash
unfolding name_hash to_be_bytes
name_hash_value = refl

version_hash_value : version_hash ≡ word Eip712.version_hash
unfolding version_hash to_be_bytes
version_hash_value = refl

-- `keccak` gives the digest as a number, `keccak256` as its 32 bytes.
module _ (keccak : Bytes → ℕ) where
  abbrev pub keccak256 : Bytes → Bytes
  keccak256 m = word (keccak m)

  domain_separator-agrees :
      (chain_id account : ℕ)
      → domain_separator keccak256 chain_id (to_be_bytes 20 account)
        ≡ word (compute_domain_separator keccak chain_id account)
  unfolding domain_separator compute_domain_separator domain_buf domain_typehash name_hash
      version_hash to_be_bytes
  domain_separator-agrees chain_id account = refl

  -- The digest that the harness signs for a call is the digest that the contract checks for it.
  pub execute_hash-agrees :
      (chain_id account to value : ℕ) (payload : Bytes) (nonce : ℕ)
      → execute_hash keccak256 chain_id
          (to_be_bytes 20 account)
          (to_be_bytes 20 to)
          (word value)
          payload
          (word nonce)
        ≡ word (compute_execute_hash keccak chain_id account to value payload nonce)
  unfolding execute_hash envelope compute_execute_hash eip712_envelope envelope_buf execute_buf
      domain_separator compute_domain_separator domain_buf domain_typehash execute_typehash
      name_hash version_hash to_be_bytes
  execute_hash-agrees chain_id account to value payload nonce = refl

  -- The digest that the harness signs for a rotation is the digest that the contract checks for it.
  pub rotate_hash-agrees :
      (chain_id account new_x new_y nonce : ℕ)
      → rotate_hash keccak256 chain_id
          (to_be_bytes 20 account)
          (word new_x)
          (word new_y)
          (word nonce)
        ≡ word (compute_rotate_hash keccak chain_id account new_x new_y nonce)
  unfolding rotate_hash envelope compute_rotate_hash eip712_envelope envelope_buf rotate_buf
      domain_separator compute_domain_separator domain_buf domain_typehash rotate_typehash name_hash
      version_hash to_be_bytes
  rotate_hash-agrees chain_id account new_x new_y nonce = refl
