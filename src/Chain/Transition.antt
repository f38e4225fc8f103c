-- ===== src/Chain/Transition.antt =====
-- What a transaction to the account may do: the specification of `transact`.
use stylus_mobile_native_aut.Base.{
  ℕ, Bool, ◌<◌, ◌≡◌, ◌++◌, List, [], ◌∷◌, true, false, ok, err, length,
}
use stylus_mobile_native_aut.Bytes.{Bytes}
use stylus_mobile_native_aut.Host.{Host}
use stylus_mobile_native_aut.Errors.{P256AccountError, batch_call_failed}
use stylus_mobile_native_aut.P256.{is_valid_pubkey}
use stylus_mobile_native_aut.Eip712.{compute_execute_hash, compute_rotate_hash}
use stylus_mobile_native_aut.Signature.Malleable.{Accepted}
use stylus_mobile_native_aut.Validators.{
  validate_execute_request, validate_rotation_request, validate_batch_shape,
  validate_authorised_hash,
}
use stylus_mobile_native_aut.Machine.{
  P256Account, Machine, called, logged, executed, batch_executed, owner_rotated,
}
use stylus_mobile_native_aut.Account.{execute_request, rotation_request, next_nonce}
use stylus_mobile_native_aut.Account.Reports.{Reports}
use stylus_mobile_native_aut.Account.Execute.{opened}
use stylus_mobile_native_aut.Account.Batch.{sent, calls_of, AllReturn, FirstFailure}
use stylus_mobile_native_aut.Account.BatchCases.{batch_opened, digest}
use stylus_mobile_native_aut.Chain.{Request, Reply, nothing, outcome, failed, Code, world}
use stylus_mobile_native_aut.Chain.Guard.{IsAuthorising}
use stylus_mobile_native_aut.Chain.Answers.{Answer}

-- The storage once a nonce is consumed.
abbrev pub consumed : P256Account → P256Account
consumed a = record a { nonce = next_nonce a.nonce }

module _ (host : Host) where
  -- The owner stored in `a` has signed `hash` for the nonce that `a` holds.
  abbrev pub OwnerSigned : P256Account → ℕ → ℕ → Bytes → Type 0
  OwnerSigned a n hash sig = (n ≡ a.nonce) × Accepted host hash sig a.owner_x a.owner_y

  -- The digests that a call and a rotation are signed over, on this chain and account.
  abbrev pub execute_digest : ℕ → ℕ → Bytes → ℕ → ℕ
  execute_digest = compute_execute_hash host.keccak host.chain_id host.contract_address

  abbrev pub rotate_digest : ℕ → ℕ → ℕ → ℕ
  rotate_digest = compute_rotate_hash host.keccak host.chain_id host.contract_address

module _ (host : Host) (code : Code host) (m : Machine) where
  -- `Transition q r m'`: the request `q` at `m` is answered `r` and leaves `m'`.
  pub data Transition : Request → Reply → Machine → Type 0 where
    -- The call was made once, after its nonce was consumed; what it gave is passed on.
    call_made :
        {to value : ℕ} {payload : Bytes} {n : ℕ} {sig : Bytes}
        → OwnerSigned host m.account n (execute_digest host to value payload n) sig
        → (success : Bool) (return_data : Bytes)
        → Reports
            (world host code to value payload (opened to value payload m)).0
            success
            return_data
        → Transition
            (Request.execute to value payload n sig)
            (outcome success return_data)
            (record {
              account = consumed m.account;
              journal =
                  m.journal
                  ++ (called to value payload
                      ∷ logged (executed to value n success return_data)
                      ∷ []);
            })
    -- Every call of the batch was made and returned.
    batch_made :
        {to value : List ℕ} {payloads : List Bytes} {n : ℕ} {sig : Bytes}
        → validate_batch_shape (length to) (length value) (length payloads) ≡ ok tt
        → OwnerSigned host m.account n (digest host to value payloads n) sig
        → (last : Machine) → AllReturn (world host code) n (batch_opened m) to value payloads last
        → sent last.journal ≡ sent m.journal ++ calls_of to value payloads
        → Transition (Request.execute_batch to value payloads n sig) nothing (record {
          account = consumed m.account;
          journal = last.journal ++ (logged (batch_executed (length to) n) ∷ []);
        })
    -- The key was replaced by a usable one.
    rotated :
        {new_x new_y n : ℕ} {sig : Bytes}
        → OwnerSigned host m.account n (rotate_digest host new_x new_y n) sig
        → is_valid_pubkey new_x new_y ≡ true
        → Transition (Request.rotate_owner new_x new_y n sig) nothing (record {
          account = record {
            owner_x = new_x;
            owner_y = new_y;
            nonce = next_nonce m.account.nonce;
            in_call = false;
          };
          journal =
              m.journal
              ++ (logged (owner_rotated m.account.owner_x m.account.owner_y new_x new_y n) ∷ []);
        })
    -- A call of a batch failed: nothing of the batch is left.
    batch_undone :
        {to value : List ℕ} {payloads : List Bytes} {n : ℕ} {sig : Bytes} (k : ℕ) (b : Bytes)
        → validate_batch_shape (length to) (length value) (length payloads) ≡ ok tt
        → OwnerSigned host m.account n (digest host to value payloads n) sig
        → k < length to
        → FirstFailure (world host code) n (batch_opened m) to value payloads k b
        → Transition
            (Request.execute_batch to value payloads n sig)
            (failed (batch_call_failed k b))
            m
    -- The validators refused.
    call_refused :
        {to value : ℕ} {payload : Bytes} {n : ℕ} {sig : Bytes} {e : P256AccountError}
        → validate_execute_request host (execute_request host m.account to value payload n sig)
          ≡ err e
        → Transition (Request.execute to value payload n sig) (failed e) m
    shape_refused :
        {to value : List ℕ} {payloads : List Bytes} {n : ℕ} {sig : Bytes} {e : P256AccountError}
        → validate_batch_shape (length to) (length value) (length payloads) ≡ err e
        → Transition (Request.execute_batch to value payloads n sig) (failed e) m
    batch_refused :
        {to value : List ℕ} {payloads : List Bytes} {n : ℕ} {sig : Bytes} {e : P256AccountError}
        → validate_batch_shape (length to) (length value) (length payloads) ≡ ok tt
        → validate_authorised_hash host
            (digest host to value payloads n)
            m.account.nonce
            n
            m.account.owner_x
            m.account.owner_y
            sig
          ≡ err e
        → Transition (Request.execute_batch to value payloads n sig) (failed e) m
    rotation_refused :
        {new_x new_y n : ℕ} {sig : Bytes} {e : P256AccountError}
        → validate_rotation_request host (rotation_request host m.account new_x new_y n sig) ≡ err e
        → Transition (Request.rotate_owner new_x new_y n sig) (failed e) m
    -- A request that needs no signature is answered, and leaves everything as it is.
    answered :
        {q : Request} {r : Reply} → ¬ IsAuthorising q → Answer host m.account q r → Transition q r m
