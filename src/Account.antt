-- ===== src/Account.antt =====
-- The public methods of `P256Account` in contracts/stylus/p256-account/src/lib.rs, with the
-- re-entrancy guard. A method that takes `&mut self` is an action on the machine.
pub mod Execute
pub mod Rotate
pub mod Reports
pub mod Batch
pub mod BatchLoop
pub mod BatchCases
use stylus_mobile_native_aut.Base.{
  ℕ, ◌+◌, ◌%◌, Bool, true, false, List, [], ◌∷◌, ok, err, panic, length, if◌then◌else◌,
}
use stylus_mobile_native_aut.Bytes.{Bytes, u256_mod}
use stylus_mobile_native_aut.Host.{Host}
use stylus_mobile_native_aut.Errors.{Checked, is_ok, reentrancy, batch_call_failed}
use stylus_mobile_native_aut.Eip712.{compute_personal_sign_hash, compute_batch_hash}
use stylus_mobile_native_aut.Signature.{validate_p256_signature}
use stylus_mobile_native_aut.Validators.{
  ExecuteRequest, RotationRequest, validate_constructor_args, validate_execute_request,
  validate_rotation_request, validate_batch_shape, validate_authorised_hash, eip1271_response,
}
use stylus_mobile_native_aut.Machine.{
  P256Account, CallResult, returned, reverted, abi_decoding_failed, Outbound, Action,
  owner_initialized, executed, batch_executed, owner_rotated, pure, raise, gets, or_panic, lift,
  modify, log, ◌>>=◌, ◌>>◌, call,
}

-- `execute_outcome`
unfoldable pub execute_outcome : CallResult → Bool × Bytes
execute_outcome (returned bytes) = (true, bytes)
execute_outcome (reverted bytes) = (false, bytes)
execute_outcome abi_decoding_failed = (false, [])

-- `self.field.set(v)`
abbrev pub set_nonce : ℕ → Action (Unit {0})
set_nonce n = modify λ a. record a { nonce = n }

abbrev pub set_in_call : Bool → Action (Unit {0})
set_in_call b = modify λ a. record a { in_call = b }

abbrev pub set_owner : ℕ → ℕ → Action (Unit {0})
set_owner x y = modify λ a. record a { owner_x = x; owner_y = y }

unfoldable pub enter : Action (Unit {0})
enter = do in_call ← gets (λ a. a.in_call); if in_call then raise reentrancy else set_in_call true

unfoldable pub exit : Action (Unit {0})
exit = set_in_call false

-- `if let Err(e) = checked { self.exit(); return Err(e); }`
unfoldable pub or_exit : Checked (Unit {0}) → Action (Unit {0})
unfolding exit
or_exit (ok _) = pure tt
or_exit (err e) = exit >> raise e
or_exit panic = lift panic

unfoldable pub constructor : ℕ → ℕ → Action (Unit {0})
constructor x y = do
  lift (validate_constructor_args x y)
  set_owner x y
  log (owner_initialized x y)

unfoldable pub owner_x : Action ℕ
owner_x = gets λ a. a.owner_x

unfoldable pub owner_y : Action ℕ
owner_y = gets λ a. a.owner_y

unfoldable pub nonce : Action ℕ
nonce = gets λ a. a.nonce

-- `current_nonce + U256::from(1)` wraps.
abbrev pub next_nonce : ℕ → ℕ
next_nonce n = (n + 1) % u256_mod

-- The request that `execute` builds from the storage, the chain's answers and its arguments.
abbrev pub execute_request : Host → P256Account → ℕ → ℕ → Bytes → ℕ → Bytes → ExecuteRequest
execute_request host a to value payload given_nonce signature = record {
  owner_x = a.owner_x;
  owner_y = a.owner_y;
  current_nonce = a.nonce;
  chain_id = host.chain_id;
  account = host.contract_address;
  to = to;
  value = value;
  payload = payload;
  nonce = given_nonce;
  signature = signature;
}

-- The request that `rotate_owner` builds.
abbrev pub rotation_request : Host → P256Account → ℕ → ℕ → ℕ → Bytes → RotationRequest
rotation_request host a new_x new_y given_nonce signature = record {
  owner_x = a.owner_x;
  owner_y = a.owner_y;
  current_nonce = a.nonce;
  chain_id = host.chain_id;
  account = host.contract_address;
  new_x = new_x;
  new_y = new_y;
  nonce = given_nonce;
  signature = signature;
}

module _ (outbound : Outbound) where
  -- The loop of `execute_batch` from index `i`: what is left of the three arrays.
  unfoldable pub execute_calls : ℕ → ℕ → List ℕ → List ℕ → List Bytes → Action (Unit {0})
  unfolding exit execute_outcome
  execute_calls given_nonce i [] values datas = pure tt
  execute_calls given_nonce i (to ∷ tos) [] datas = lift panic
  execute_calls given_nonce i (to ∷ tos) (value ∷ values) [] = lift panic
  execute_calls given_nonce i (to ∷ tos) (value ∷ values) (payload ∷ datas) =
      let rest = execute_calls given_nonce (i + 1) tos values datas in
      do
        call_result ← call outbound to value payload
        let (success, return_data) = execute_outcome call_result
        log (executed to value given_nonce success return_data)
        if success then rest else exit >> raise (batch_call_failed i return_data)

module _ (host : Host) (outbound : Outbound) where
  unfoldable pub execute : ℕ → ℕ → Bytes → ℕ → Bytes → Action (Bool × Bytes)
  unfolding enter exit or_exit execute_outcome
  execute to value payload given_nonce signature = do
    enter
    current ← gets (λ a. a)
    or_exit (
        validate_execute_request host
          (execute_request host current to value payload given_nonce signature))
    set_nonce (next_nonce current.nonce)
    call_result ← call outbound to value payload
    let (success, return_data) = execute_outcome call_result
    log (executed to value given_nonce success return_data)
    exit
    pure (success, return_data)

  unfoldable pub execute_batch : List ℕ → List ℕ → List Bytes → ℕ → Bytes → Action (Unit {0})
  unfolding enter exit or_exit
  execute_batch to value payloads given_nonce signature = do
    enter
    or_exit (validate_batch_shape (length to) (length value) (length payloads))
    current ← gets (λ a. a)
    batch_hash ← or_panic (
        compute_batch_hash host.keccak host.chain_id host.contract_address to value payloads
          given_nonce)
    or_exit (
        validate_authorised_hash host batch_hash current.nonce given_nonce current.owner_x
          current.owner_y signature)
    set_nonce (next_nonce current.nonce)
    execute_calls outbound given_nonce 0 to value payloads
    log (batch_executed (length to) given_nonce)
    exit

module _ (host : Host) where
  unfoldable pub rotate_owner : ℕ → ℕ → ℕ → Bytes → Action (Unit {0})
  unfolding enter exit or_exit
  rotate_owner new_x new_y given_nonce signature = do
    enter
    current ← gets (λ a. a)
    or_exit (
        validate_rotation_request host
          (rotation_request host current new_x new_y given_nonce signature))
    set_nonce (next_nonce current.nonce)
    set_owner new_x new_y
    log (owner_rotated current.owner_x current.owner_y new_x new_y given_nonce)
    exit

  unfoldable pub verify : ℕ → Bytes → Action Bool
  verify hash signature =
      gets λ a. is_ok (validate_p256_signature host hash signature a.owner_x a.owner_y)

  unfoldable pub is_valid_signature : ℕ → Bytes → Action Bytes
  is_valid_signature hash signature = gets λ a.
      let wrapped =
        compute_personal_sign_hash host.keccak host.chain_id host.contract_address hash in
      eip1271_response (is_ok (validate_p256_signature host wrapped signature a.owner_x a.owner_y))
