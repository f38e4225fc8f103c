-- ===== src/Chain/Progress.antt =====
-- Requests that the owner signed for the stored nonce.
use stylus_mobile_native_aut.Base.{
  ℕ, ◌<◌, ◌≡◌, refl, ap, ◌⊎◌, inl, inr, Bool, List, [], ◌∷◌, ◌++◌, true, false, ok, length,
}
use stylus_mobile_native_aut.Bytes.{Bytes}
use stylus_mobile_native_aut.Host.{Host}
use stylus_mobile_native_aut.Errors.{batch_call_failed}
use stylus_mobile_native_aut.P256.{is_valid_pubkey}
use stylus_mobile_native_aut.Signature.Malleable.{Accepted-iff}
use stylus_mobile_native_aut.Validators.{validate_batch_shape}
use stylus_mobile_native_aut.Validators.Decisions.{
  validate_execute_request_iff, validate_rotation_request_iff, validate_authorised_hash_iff,
  validate_batch_shape_iff,
}
use stylus_mobile_native_aut.Machine.{Machine, called, logged, executed, batch_executed}
use stylus_mobile_native_aut.Account.{execute_request, rotation_request, execute_outcome}
use stylus_mobile_native_aut.Account.Reports.{Reports, execute_outcome-Reports}
use stylus_mobile_native_aut.Account.Execute.{opened}
use stylus_mobile_native_aut.Account.Batch.{sent, calls_of, AllReturn, FirstFailure}
use stylus_mobile_native_aut.Account.BatchLoop.{execute_calls_outcome}
use stylus_mobile_native_aut.Account.BatchCases.{batch_opened, digest}
use stylus_mobile_native_aut.Chain.{Request, nothing, outcome, failed, Code, transact, world}
use stylus_mobile_native_aut.Chain.Guard.{world-Inert}
use stylus_mobile_native_aut.Chain.Transition.{OwnerSigned, execute_digest, rotate_digest, consumed}
use stylus_mobile_native_aut.Chain.Settled.{
  execute-settled, rotate-settled, batch-settled, batch-Stopped,
}

module _ (host : Host) (code : Code host) (m : Machine) (free : m.account.in_call ≡ false) where
  -- An `execute` that the owner signed for the stored nonce is never refused: at an account whose
  -- guard is released its nonce is consumed, also if the callee fails. The reply says success where
  -- the callee returned and failure where it reverted, with what it returned or reverted with, or
  -- failure without data where its answer was not decoded; the journal gains the call and the event
  -- that says the same.
  pub signed_execute :
      (to value : ℕ) (payload : Bytes) (n : ℕ) (sig : Bytes)
      → OwnerSigned host m.account n (execute_digest host to value payload n) sig
      → let (reply, m') = transact host code (Request.execute to value payload n sig) m in
        (success : Bool) × (b : Bytes) × Reports
          (world host code to value payload (opened to value payload m)).0
          success
          b
        × (reply ≡ outcome success b)
        × (m'.account ≡ consumed m.account)
        × (m'.journal
            ≡ m.journal ++ (called to value payload ∷ logged (executed to value n success b) ∷ []))
  signed_execute to value payload n sig signed =
      let r = execute_request host m.account to value payload n sig in
      let hash = execute_digest host to value payload n in
      let valid =
        (validate_execute_request_iff host r).1
          (signed.0, (Accepted-iff host hash sig _ _).1 signed.1) in
      let done = execute-settled host code m free to value payload n sig valid in
      (
        (execute_outcome _).0,
        (execute_outcome _).1,
        execute_outcome-Reports _,
        ap (λ p. p.0) done,
        ap (λ p. p.1.account) done,
        ap (λ p. p.1.journal) done,
      )

  -- A rotation to a usable key that the owner signed for the stored nonce installs that key,
  -- consumes the nonce and releases the guard, at an account whose guard is released.
  pub signed_rotation :
      (new_x new_y n : ℕ) (sig : Bytes)
      → OwnerSigned host m.account n (rotate_digest host new_x new_y n) sig
      → is_valid_pubkey new_x new_y ≡ true
      → let (reply, m') = transact host code (Request.rotate_owner new_x new_y n sig) m in
        (reply ≡ nothing)
        × (m'.account.owner_x ≡ new_x)
        × (m'.account.owner_y ≡ new_y)
        × (m'.account.nonce ≡ (consumed m.account).nonce)
        × (m'.account.in_call ≡ false)
  signed_rotation new_x new_y n sig signed usable =
      let r = rotation_request host m.account new_x new_y n sig in
      let hash = rotate_digest host new_x new_y n in
      let valid =
        (validate_rotation_request_iff host r).1
          (signed.0, usable, (Accepted-iff host hash sig _ _).1 signed.1) in
      let done = rotate-settled host code m free new_x new_y n sig valid in
      (
        ap (λ p. p.0) done,
        ap (λ p. p.1.account.owner_x) done,
        ap (λ p. p.1.account.owner_y) done,
        ap (λ p. p.1.account.nonce) done,
        ap (λ p. p.1.account.in_call) done,
      )

  -- A batch of the right shape that the owner signed for the stored nonce, at an account whose guard
  -- is released, either makes every call in order, all of which return, succeeds, consumes its nonce
  -- and logs the batch, or reports the index and the return data of its first failing call and leaves
  -- the machine as it is.
  pub signed_batch :
      (to value : List ℕ) (payloads : List Bytes) (n : ℕ) (sig : Bytes)
      → validate_batch_shape (length to) (length value) (length payloads) ≡ ok tt
      → OwnerSigned host m.account n (digest host to value payloads n) sig
      → let (reply, m') = transact host code (Request.execute_batch to value payloads n sig) m in
        ((last : Machine) × AllReturn (world host code) n (batch_opened m) to value payloads last
          × (sent last.journal ≡ sent m.journal ++ calls_of to value payloads)
          × (reply ≡ nothing)
          × (m'.account ≡ consumed m.account)
          × (m'.journal ≡ last.journal ++ (logged (batch_executed (length to) n) ∷ [])))
        ⊎ ((k : ℕ) × (b : Bytes) × (k < length to)
            × FirstFailure (world host code) n (batch_opened m) to value payloads k b
            × (reply ≡ failed (batch_call_failed k b))
            × (m' ≡ m))
  signed_batch to value payloads n sig shape signed =
      let same = (validate_batch_shape_iff (length to) (length value) (length payloads)).0 shape in
      let hash = digest host to value payloads n in
      let valid =
        (validate_authorised_hash_iff host hash _ n _ _ sig).1
          (signed.0, (Accepted-iff host hash sig _ _).1 signed.1) in
      elim (execute_calls_outcome (world host code) (world-Inert host code) n 0 to value payloads
        (batch_opened m) same.2 same.3 refl) [
          | inl c ↦
              let done = batch-settled host code m free to value payloads n sig shape valid c in
              inl (
                c.last,
                c.all_return,
                c.calls_sent,
                ap (λ p. p.0) done,
                ap (λ p. p.1.account) done,
                ap (λ p. p.1.journal) done,
              )
          | inr s ↦
              let done = batch-Stopped host code m free to value payloads n sig shape valid s in
              inr (
                s.index,
                s.return_data,
                s.in_range,
                s.first,
                ap (λ p. p.0) done,
                ap (λ p. p.1) done,
              )
        ]
