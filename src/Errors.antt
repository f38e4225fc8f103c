-- ===== src/Errors.antt =====
-- `enum P256AccountError` of contracts/stylus/p256-account/src/lib.rs, each variant with the fields
-- of its Solidity error, and the results that carry it.
use stylus_mobile_native_aut.Base.{ℕ, Result, ok, err, Bool, true, false}
use stylus_mobile_native_aut.Bytes.{Bytes}

pub data P256AccountError : Type 0 where
  invalid_public_key : P256AccountError
  invalid_signature_length : ℕ → P256AccountError
  invalid_signature : P256AccountError
  invalid_r : P256AccountError
  invalid_s : P256AccountError
  nonce_mismatch : ℕ → ℕ → P256AccountError
  high_s : P256AccountError
  unknown_selector : P256AccountError
  reentrancy : P256AccountError
  invalid_batch : ℕ → ℕ → ℕ → P256AccountError
  batch_call_failed : ℕ → Bytes → P256AccountError

-- `Result<T, P256AccountError>`
abbrev pub Checked : Type 0 → Type 0
Checked A = Result P256AccountError A

-- `Result::is_ok`
abbrev pub is_ok : {A : Type 0} → Checked A → Bool
is_ok (ok _) = true
is_ok _ = false

-- `if !c { return Err(e); }` before the rest of a validator.
infixr 2 ◌unless◌then◌
abbrev pub ◌unless◌then◌ : {A : Type 0} → P256AccountError → Bool → Checked A → Checked A
e unless true then rest = rest
e unless false then rest = err e
