-- ===== src/Validators/Decided.antt =====
-- Every validator ends, with acceptance or with one of the contract's errors.
use stylus_mobile_native_aut.Base.{ℕ, ◌≡◌, refl, ◌⊎◌, inl, inr, ok, err, arith}
use stylus_mobile_native_aut.Bytes.{Bytes}
use stylus_mobile_native_aut.Host.{Host}
use stylus_mobile_native_aut.Errors.{Checked, P256AccountError}
use stylus_mobile_native_aut.Eip712.{compute_execute_hash, compute_rotate_hash}
use stylus_mobile_native_aut.Signature.{validate_p256_signature}
use stylus_mobile_native_aut.Signature.Verdict.{
  Verdict, wrong_length, bad_r, bad_s, high, rejected, accepted, validate_p256_signature-Verdict,
}
use stylus_mobile_native_aut.Validators.{
  ExecuteRequest, RotationRequest, validate_batch_shape, validate_execute_request,
  validate_rotation_request, validate_authorised_hash,
}

-- `Ok(())` or an error.
abbrev pub Decided : Checked (Unit {0}) → Type 0
Decided c = (c ≡ ok tt) ⊎ ((e : P256AccountError) × (c ≡ err e))

module _ (host : Host) where
  Verdict-Decided :
      {hash x y : ℕ} {signature : Bytes} {c : Checked (Unit {0})}
      → Verdict host hash signature x y c
      → Decided c
  Verdict-Decided (wrong_length _) = inr (_, refl)
  Verdict-Decided (bad_r _ _) = inr (_, refl)
  Verdict-Decided (bad_s _ _ _) = inr (_, refl)
  Verdict-Decided (high _ _ _ _) = inr (_, refl)
  Verdict-Decided (rejected _ _ _ _ _) = inr (_, refl)
  Verdict-Decided (accepted _ _ _ _ _) = inl refl

  pub signature-Decided :
      (hash : ℕ) (signature : Bytes) (x y : ℕ)
      → Decided (validate_p256_signature host hash signature x y)
  signature-Decided hash signature x y =
      Verdict-Decided (validate_p256_signature-Verdict host hash signature x y)

  pub execute-Decided : (r : ExecuteRequest) → Decided (validate_execute_request host r)
  unfolding validate_execute_request
  execute-Decided r =
      let hash =
        compute_execute_hash host.keccak r.chain_id r.account r.to r.value r.payload r.nonce in
      ground (arith, signature-Decided hash r.signature r.owner_x r.owner_y)

  pub rotation-Decided : (r : RotationRequest) → Decided (validate_rotation_request host r)
  unfolding validate_rotation_request
  rotation-Decided r =
      let hash = compute_rotate_hash host.keccak r.chain_id r.account r.new_x r.new_y r.nonce in
      ground (arith, signature-Decided hash r.signature r.owner_x r.owner_y)

  pub authorised-Decided :
      (hash current_nonce nonce owner_x owner_y : ℕ) (signature : Bytes)
      → Decided (validate_authorised_hash host hash current_nonce nonce owner_x owner_y signature)
  unfolding validate_authorised_hash
  authorised-Decided hash current_nonce nonce owner_x owner_y signature =
      ground (arith, signature-Decided hash signature owner_x owner_y)

pub shape-Decided :
    (to_len value_len data_len : ℕ) → Decided (validate_batch_shape to_len value_len data_len)
unfolding validate_batch_shape
shape-Decided to_len value_len data_len = ground arith
