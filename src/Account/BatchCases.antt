-- ===== src/Account/BatchCases.antt =====
-- `execute_batch` on each of its branches, where no callee changes the machine while it is called.
use stylus_mobile_native_aut.Base.{
  ℕ, ◌≡◌, true, false, List, [], ◌∷◌, ◌++◌, ok, err, some, length, arith,
}
use stylus_mobile_native_aut.Bytes.{Bytes}
use stylus_mobile_native_aut.Host.{Host}
use stylus_mobile_native_aut.Errors.{reentrancy, batch_call_failed, P256AccountError}
use stylus_mobile_native_aut.Eip712.{compute_batch_hash}
use stylus_mobile_native_aut.Eip712.Batch.{typed_batch_digest, compute_batch_hash_total}
use stylus_mobile_native_aut.Validators.{validate_batch_shape, validate_authorised_hash}
use stylus_mobile_native_aut.Validators.Decisions.{validate_batch_shape_iff}
use stylus_mobile_native_aut.Machine.{Machine, Outbound, logged, batch_executed}
use stylus_mobile_native_aut.Account.{execute_batch, next_nonce}
use stylus_mobile_native_aut.Account.BatchLoop.{Inert, Completed, Stopped}

-- The digest that the signature of a batch is checked against.
abbrev pub digest : Host → List ℕ → List ℕ → List Bytes → ℕ → ℕ
digest host = typed_batch_digest host.keccak host.chain_id host.contract_address

-- The machine that the loop starts from: guard set, nonce consumed.
abbrev pub batch_opened : Machine → Machine
batch_opened m = record m {
  account = record (m.account) { in_call = true; nonce = next_nonce m.account.nonce };
}

module _ (host : Host) (outbound : Outbound) (to value : List ℕ) (payloads : List Bytes) (n : ℕ)
    (sig : Bytes) (m : Machine) where
  pub execute_batch-latched :
      m.account.in_call ≡ true
      → execute_batch host outbound to value payloads n sig m ≡ (err reentrancy, m)
  unfolding execute_batch
  execute_batch-latched h = ground arith

  pub execute_batch-misshapen :
      {e : P256AccountError}
      → m.account.in_call ≡ false
      → validate_batch_shape (length to) (length value) (length payloads) ≡ err e
      → execute_batch host outbound to value payloads n sig m ≡ (err e, m)
  unfolding execute_batch
  execute_batch-misshapen h s = ground arith

  module _ (free : m.account.in_call ≡ false)
      (shape : validate_batch_shape (length to) (length value) (length payloads) ≡ ok tt) where
    hashed :
        compute_batch_hash host.keccak host.chain_id host.contract_address to value payloads n
        ≡ some (digest host to value payloads n)
    hashed =
        let same =
          (validate_batch_shape_iff (length to) (length value) (length payloads)).0 shape in
        compute_batch_hash_total host.keccak host.chain_id host.contract_address to value payloads n
          same.2 same.3

    pub execute_batch-unauthorised :
        {e : P256AccountError}
        → validate_authorised_hash host
            (digest host to value payloads n)
            m.account.nonce
            n
            m.account.owner_x
            m.account.owner_y
            sig
          ≡ err e
        → execute_batch host outbound to value payloads n sig m ≡ (err e, m)
    unfolding execute_batch
    execute_batch-unauthorised v = ground (arith, hashed)

    module _
        (signed : validate_authorised_hash host
            (digest host to value payloads n)
            m.account.nonce
            n
            m.account.owner_x
            m.account.owner_y
            sig
          ≡ ok tt)
        (inert : Inert outbound) where
      pub execute_batch-Completed :
          (c : Completed outbound inert n 0 to value payloads (batch_opened m))
          → execute_batch host outbound to value payloads n sig m ≡ (
            ok tt,
            record {
              account = record (m.account) { nonce = next_nonce m.account.nonce };
              journal = c.last.journal ++ (logged (batch_executed (length to) n) ∷ []);
            },
          )
      unfolding execute_batch
      execute_batch-Completed c = ground (arith, hashed, c.finished, c.account_kept)

      pub execute_batch-Stopped :
          (s : Stopped outbound inert n 0 to value payloads (batch_opened m))
          → (execute_batch host outbound to value payloads n sig m).0
            ≡ err (batch_call_failed s.index s.return_data)
      unfolding execute_batch
      execute_batch-Stopped s = ground (arith, hashed, s.stopped)
