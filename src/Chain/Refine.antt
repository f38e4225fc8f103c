-- ===== src/Chain/Refine.antt =====
-- `transact` against the transition relation of Chain/Transition.
use stylus_mobile_native_aut.Base.{ℕ, ◌≡◌, refl, inl, inr, List, false, ok, length}
use stylus_mobile_native_aut.Bytes.{Bytes}
use stylus_mobile_native_aut.Host.{Host}
use stylus_mobile_native_aut.Signature.Malleable.{Accepted-iff}
use stylus_mobile_native_aut.Validators.{validate_batch_shape, validate_authorised_hash}
use stylus_mobile_native_aut.Validators.Decisions.{
  validate_batch_shape_iff, validate_execute_request_iff, validate_rotation_request_iff,
  validate_authorised_hash_iff,
}
use stylus_mobile_native_aut.Validators.Decided.{
  execute-Decided, rotation-Decided, authorised-Decided, shape-Decided,
}
use stylus_mobile_native_aut.Machine.{Machine}
use stylus_mobile_native_aut.Account.{execute_request, rotation_request}
use stylus_mobile_native_aut.Account.Reports.{execute_outcome-Reports}
use stylus_mobile_native_aut.Account.BatchLoop.{execute_calls_outcome}
use stylus_mobile_native_aut.Account.BatchCases.{digest, batch_opened}
use stylus_mobile_native_aut.Chain.{Request, Code, world, transact}
use stylus_mobile_native_aut.Chain.Guard.{world-Inert, serve_reads}
use stylus_mobile_native_aut.Chain.Settled.{
  execute-settled, execute-failed, rotate-settled, rotate-failed, shape-failed, batch-failed,
  batch-settled, batch-Stopped,
}
use stylus_mobile_native_aut.Chain.Answers.{serve-Answer}
use stylus_mobile_native_aut.Chain.Transition.{
  OwnerSigned, execute_digest, Transition, call_made, batch_made, rotated, batch_undone,
  call_refused, shape_refused, batch_refused, rotation_refused, answered,
}

module _ (host : Host) (code : Code host) (m : Machine) (free : m.account.in_call ≡ false) where
  abbrev Served : Request → Type 0
  Served q = Transition host code m q (transact host code q m).0 (transact host code q m).1

  execute-Served :
      (to value : ℕ) (payload : Bytes) (n : ℕ) (sig : Bytes)
      → Served (Request.execute to value payload n sig)
  execute-Served to value payload n sig =
      let r = execute_request host m.account to value payload n sig in
      elim (execute-Decided host r) [
        | inl v ↦
            let signed = (validate_execute_request_iff host r).0 v in
            rw (execute-settled host code m free to value payload n sig v) (
              call_made
                (
                  signed.0,
                  (Accepted-iff host (execute_digest host to value payload n) sig _ _).0 signed.1,
                )
                _ _ (execute_outcome-Reports _))
        | inr (e, v) ↦
            rw (execute-failed host code m free to value payload n sig e v) (call_refused v)
      ]

  rotate-Served :
      (new_x new_y n : ℕ) (sig : Bytes) → Served (Request.rotate_owner new_x new_y n sig)
  rotate-Served new_x new_y n sig =
      let r = rotation_request host m.account new_x new_y n sig in
      elim (rotation-Decided host r) [
        | inl v ↦
            let signed = (validate_rotation_request_iff host r).0 v in
            rw (rotate-settled host code m free new_x new_y n sig v)
              (rotated (signed.0, (Accepted-iff host _ sig _ _).0 signed.2) signed.1)
        | inr (e, v) ↦
            rw (rotate-failed host code m free new_x new_y n sig e v) (rotation_refused v)
      ]

  module _ (to value : List ℕ) (payloads : List Bytes) (n : ℕ) (sig : Bytes)
      (shape : validate_batch_shape (length to) (length value) (length payloads) ≡ ok tt) where
    -- An authorised batch of the right shape: all calls return, or the first failure is reported.
    ran-Served :
        validate_authorised_hash host
            (digest host to value payloads n)
            m.account.nonce
            n
            m.account.owner_x
            m.account.owner_y
            sig
          ≡ ok tt
        → Served (Request.execute_batch to value payloads n sig)
    ran-Served v =
        let same =
          (validate_batch_shape_iff (length to) (length value) (length payloads)).0 shape in
        let signed = (validate_authorised_hash_iff host _ _ n _ _ sig).0 v in
        let owner : OwnerSigned host m.account n (digest host to value payloads n) sig =
          (signed.0, (Accepted-iff host _ sig _ _).0 signed.1) in
        elim (execute_calls_outcome (world host code) (world-Inert host code) n 0 to value payloads
          (batch_opened m) same.2 same.3 refl) [
            | inl c ↦
                rw (batch-settled host code m free to value payloads n sig shape v c)
                  (batch_made shape owner c.last c.all_return c.calls_sent)
            | inr s ↦
                rw (batch-Stopped host code m free to value payloads n sig shape v s)
                  (batch_undone s.index s.return_data shape owner s.in_range s.first)
          ]

    shaped-Served : Served (Request.execute_batch to value payloads n sig)
    shaped-Served = elim (authorised-Decided host (digest host to value payloads n) _ n _ _ sig) [
      | inl v ↦ ran-Served v
      | inr (e, v) ↦
          rw (batch-failed host code m free to value payloads n sig shape e v)
            (batch_refused shape v)
    ]

  batch-Served :
      (to value : List ℕ) (payloads : List Bytes) (n : ℕ) (sig : Bytes)
      → Served (Request.execute_batch to value payloads n sig)
  batch-Served to value payloads n sig =
      elim (shape-Decided (length to) (length value) (length payloads)) [
        | inr (e, s) ↦
            rw (shape-failed host code m free to value payloads n sig e s) (shape_refused s)
        | inl s ↦ shaped-Served to value payloads n sig s
      ]

  -- Every transaction to an account whose guard is released is a transition of the specification,
  -- for every request, every code on the chain and every way that code calls the account back: a
  -- signed request runs, a batch with a failing call is undone, what the validators refuse fails, and
  -- a request that needs no signature is answered; in the last three cases the machine stays.
  pub transact-Transition :
      (q : Request) → Transition host code m q (transact host code q m).0 (transact host code q m).1
  unfolding transact
  transact-Transition (Request.execute to value payload n sig) =
      execute-Served to value payload n sig
  transact-Transition (Request.execute_batch to value payloads n sig) =
      batch-Served to value payloads n sig
  transact-Transition (Request.rotate_owner new_x new_y n sig) = rotate-Served new_x new_y n sig
  transact-Transition q =
      rw (serve_reads host (world host code) q m (λ a. a))
        (answered (λ a. a) (serve-Answer host (world host code) m q (λ a. a)))
