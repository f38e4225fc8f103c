-- ===== src/Chain/Settled.antt =====
-- The reply and the machine that each branch of an authorising transaction ends with.
use stylus_mobile_native_aut.Base.{
  ℕ, ◌≡◌, refl, List, [], ◌∷◌, ◌++◌, append_assoc, false, ok, err, length, arith,
}
use stylus_mobile_native_aut.Bytes.{Bytes}
use stylus_mobile_native_aut.Host.{Host}
use stylus_mobile_native_aut.Errors.{Checked, P256AccountError, batch_call_failed}
use stylus_mobile_native_aut.Validators.{
  validate_execute_request, validate_rotation_request, validate_batch_shape,
  validate_authorised_hash,
}
use stylus_mobile_native_aut.Machine.{
  Machine, called, logged, executed, batch_executed, owner_rotated,
}
use stylus_mobile_native_aut.Account.{
  execute_request, rotation_request, execute_outcome, next_nonce,
}
use stylus_mobile_native_aut.Account.Execute.{opened, execute-accepted, execute-rejected}
use stylus_mobile_native_aut.Account.Rotate.{rotate_owner-accepted, rotate_owner-rejected}
use stylus_mobile_native_aut.Account.BatchLoop.{Completed, Stopped}
use stylus_mobile_native_aut.Account.BatchCases.{
  digest, batch_opened, execute_batch-misshapen, execute_batch-unauthorised,
  execute_batch-Completed, execute_batch-Stopped,
}
use stylus_mobile_native_aut.Chain.{Request, nothing, outcome, failed, Code, world, serve, transact}
use stylus_mobile_native_aut.Chain.Guard.{world-Inert}
use stylus_mobile_native_aut.Chain.Transition.{consumed}

module _ (host : Host) (code : Code host) (m : Machine) (free : m.account.in_call ≡ false) where
  -- What the callee does leaves nothing, so the frame of an accepted call is known in full.
  pub execute-settled :
      (to value : ℕ) (payload : Bytes) (n : ℕ) (sig : Bytes)
      → validate_execute_request host (execute_request host m.account to value payload n sig)
        ≡ ok tt
      → let o = execute_outcome (world host code to value payload (opened to value payload m)).0 in
        transact host code (Request.execute to value payload n sig) m ≡ (
          outcome o.0 o.1,
          record {
            account = consumed m.account;
            journal =
                m.journal ++ (called to value payload ∷ logged (executed to value n o.0 o.1) ∷ []);
          },
        )
  unfolding transact serve
  execute-settled to value payload n sig v =
      let o = execute_outcome (world host code to value payload (opened to value payload m)).0 in
      ground (
        arith,
        execute-accepted host (world host code) to value payload n sig m free v,
        world-Inert host code to value payload (opened to value payload m) refl,
        append_assoc m.journal (called to value payload ∷ [])
            (logged (executed to value n o.0 o.1) ∷ []),
      )

  pub execute-failed :
      (to value : ℕ) (payload : Bytes) (n : ℕ) (sig : Bytes) (e : P256AccountError)
      → validate_execute_request host (execute_request host m.account to value payload n sig)
        ≡ err e
      → transact host code (Request.execute to value payload n sig) m ≡ (failed e, m)
  unfolding transact serve
  execute-failed to value payload n sig e v =
      ground (arith, execute-rejected host (world host code) to value payload n sig m free v)

  module _ (new_x new_y n : ℕ) (sig : Bytes) where
    pub rotate-settled :
        validate_rotation_request host (rotation_request host m.account new_x new_y n sig) ≡ ok tt
        → transact host code (Request.rotate_owner new_x new_y n sig) m ≡ (
          nothing,
          record {
            account = record {
              owner_x = new_x;
              owner_y = new_y;
              nonce = next_nonce m.account.nonce;
              in_call = false;
            };
            journal =
                m.journal
                ++ (logged (owner_rotated m.account.owner_x m.account.owner_y new_x new_y n) ∷ []);
          },
        )
    unfolding transact serve
    rotate-settled v = ground (arith, rotate_owner-accepted host new_x new_y n sig m free v)

    pub rotate-failed :
        (e : P256AccountError)
        → validate_rotation_request host (rotation_request host m.account new_x new_y n sig) ≡ err e
        → transact host code (Request.rotate_owner new_x new_y n sig) m ≡ (failed e, m)
    unfolding transact serve
    rotate-failed e v = ground (arith, rotate_owner-rejected host new_x new_y n sig m free v)

  module _ (to value : List ℕ) (payloads : List Bytes) (n : ℕ) (sig : Bytes) where
    abbrev pub batch : Request
    batch = Request.execute_batch to value payloads n sig

    pub shape-failed :
        (e : P256AccountError)
        → validate_batch_shape (length to) (length value) (length payloads) ≡ err e
        → transact host code batch m ≡ (failed e, m)
    unfolding transact serve
    shape-failed e s =
        ground
          (arith, execute_batch-misshapen host (world host code) to value payloads n sig m free s)

    module _
        (shape : validate_batch_shape (length to) (length value) (length payloads) ≡ ok tt) where
      abbrev pub authorised : Checked (Unit {0})
      authorised =
          validate_authorised_hash host (digest host to value payloads n) m.account.nonce n
            m.account.owner_x m.account.owner_y sig

      pub batch-failed :
          (e : P256AccountError) → authorised ≡ err e → transact host code batch m ≡ (failed e, m)
      unfolding transact serve
      batch-failed e v = ground (
        arith,
        execute_batch-unauthorised host (world host code) to value payloads n sig m free shape v,
      )

      pub batch-settled :
          authorised ≡ ok tt
          → (c : Completed
              (world host code)
              (world-Inert host code)
              n
              0
              to
              value
              payloads
              (batch_opened m))
          → transact host code batch m ≡ (
            nothing,
            record {
              account = consumed m.account;
              journal = c.last.journal ++ (logged (batch_executed (length to) n) ∷ []);
            },
          )
      unfolding transact serve
      batch-settled v c = ground (
        arith,
        execute_batch-Completed host (world host code) to value payloads n sig m free shape v
            (world-Inert host code) c,
      )

      pub batch-Stopped :
          authorised ≡ ok tt
          → (s : Stopped
              (world host code)
              (world-Inert host code)
              n
              0
              to
              value
              payloads
              (batch_opened m))
          → transact host code batch m ≡ (failed (batch_call_failed s.index s.return_data), m)
      unfolding transact serve
      batch-Stopped v s = ground (
        arith,
        execute_batch-Stopped host (world host code) to value payloads n sig m free shape v
            (world-Inert host code) s,
      )
