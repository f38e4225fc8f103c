-- ===== src/Base/Outcome.antt =====
-- Rust's `Result` over an error type, with a third outcome for a panic.
pub data Result {ℓ κ} (E : Type κ) (A : Type ℓ) : Type (ℓ ⊔ κ) where
  ok : A → Result E A
  err : E → Result E A
  panic : Result E A
