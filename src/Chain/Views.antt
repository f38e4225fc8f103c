-- ===== src/Chain/Views.antt =====
-- The EIP-1271 query.
use stylus_mobile_native_aut.Base.{ℕ, ◌≡◌, ◌⊎◌, inl, inr, [], ◌∷◌}
use stylus_mobile_native_aut.Bytes.{Bytes}
use stylus_mobile_native_aut.Host.{Host}
use stylus_mobile_native_aut.Eip712.{compute_personal_sign_hash}
use stylus_mobile_native_aut.Signature.Malleable.{Accepted, Accepted-iff}
use stylus_mobile_native_aut.Validators.{eip1271_magic, eip1271_response}
use stylus_mobile_native_aut.Validators.Decided.{signature-Decided}
use stylus_mobile_native_aut.Machine.{Machine, Outbound}
use stylus_mobile_native_aut.Account
use stylus_mobile_native_aut.Chain.{Request, bytes, serve}

-- The challenge as the owner signs it: wrapped, never raw.
abbrev pub challenge : Host → ℕ → ℕ
challenge host hash =
    compute_personal_sign_hash host.keccak host.chain_id host.contract_address hash

module _ (host : Host) (out : Outbound) (hash : ℕ) (sig : Bytes) (m : Machine) where
  -- `is_valid_signature` answers the EIP-1271 magic value if the signature is accepted for the wrapped
  -- challenge and the stored key, and four zero bytes if not. It never fails and changes nothing,
  -- whether or not the guard is set.
  pub is_valid_signature_answer :
      (Accepted host (challenge host hash) sig m.account.owner_x m.account.owner_y
        × (serve host out (Request.is_valid_signature hash sig) m ≡ (bytes eip1271_magic, m)))
      ⊎ ((¬ Accepted host (challenge host hash) sig m.account.owner_x m.account.owner_y)
          × (serve host out (Request.is_valid_signature hash sig) m
              ≡ (bytes (0 ∷ 0 ∷ 0 ∷ 0 ∷ []), m)))
  unfolding serve Account.is_valid_signature eip1271_response
  is_valid_signature_answer =
      let key = Accepted-iff host (challenge host hash) sig m.account.owner_x m.account.owner_y in
      elim (signature-Decided host (challenge host hash) sig m.account.owner_x m.account.owner_y) [
        | inl v ↦ inl (key.0 v, rw v)
        | inr (e, v) ↦ inr (λ a. cc (key.1 a), rw v)
      ]
