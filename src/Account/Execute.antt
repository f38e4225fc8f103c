-- ===== src/Account/Execute.antt =====
-- `execute` on each of its branches.
use stylus_mobile_native_aut.Base.{ℕ, ◌≡◌, true, false, [], ◌∷◌, ◌++◌, ok, err, arith}
use stylus_mobile_native_aut.Bytes.{Bytes}
use stylus_mobile_native_aut.Host.{Host}
use stylus_mobile_native_aut.Errors.{reentrancy, P256AccountError}
use stylus_mobile_native_aut.Validators.{validate_execute_request}
use stylus_mobile_native_aut.Machine.{Machine, Outbound, called, logged, executed}
use stylus_mobile_native_aut.Account.{execute, execute_outcome, execute_request, next_nonce}

-- The machine that the callee meets: guard set, nonce consumed, call on record.
abbrev pub opened : ℕ → ℕ → Bytes → Machine → Machine
opened to value payload m = record {
  account = record (m.account) { in_call = true; nonce = next_nonce m.account.nonce };
  journal = m.journal ++ (called to value payload ∷ []);
}

module _ (host : Host) (outbound : Outbound) (to value : ℕ) (payload : Bytes) (n : ℕ) (sig : Bytes)
    (m : Machine) where
  pub execute-latched :
      m.account.in_call ≡ true
      → execute host outbound to value payload n sig m ≡ (err reentrancy, m)
  unfolding execute
  execute-latched h = ground arith

  pub execute-rejected :
      {e : P256AccountError}
      → m.account.in_call ≡ false
      → validate_execute_request host (execute_request host m.account to value payload n sig)
        ≡ err e
      → execute host outbound to value payload n sig m ≡ (err e, m)
  unfolding execute
  execute-rejected h v = ground arith

  pub execute-accepted :
      m.account.in_call ≡ false
      → validate_execute_request host (execute_request host m.account to value payload n sig)
        ≡ ok tt
      → let (r, m') = outbound to value payload (opened to value payload m) in
        execute host outbound to value payload n sig m ≡ (
          ok (execute_outcome r),
          record {
            account = record (m'.account) { in_call = false };
            journal =
                m'.journal
                ++ (logged (executed to value n (execute_outcome r).0 (execute_outcome r).1) ∷ []);
          },
        )
  unfolding execute
  execute-accepted h v = ground arith
