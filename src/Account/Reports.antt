-- ===== src/Account/Reports.antt =====
-- What a call's result says of the call, stated apart from `execute_outcome`.
use stylus_mobile_native_aut.Base.{◌≡◌, refl, Bool, true, false, []}
use stylus_mobile_native_aut.Bytes.{Bytes}
use stylus_mobile_native_aut.Machine.{CallResult, returned, reverted, abi_decoding_failed}
use stylus_mobile_native_aut.Account.{execute_outcome}

-- The call succeeded where the callee returned, and gave what it returned; it failed where the callee
-- reverted, and gave the revert data, or nothing where its answer was not decoded.
pub data Reports : CallResult → Bool → Bytes → Type 0 where
  it_returned : {b : Bytes} → Reports (returned b) true b
  it_reverted : {b : Bytes} → Reports (reverted b) false b
  not_decoded : Reports abi_decoding_failed false []

pub execute_outcome-Reports :
    (r : CallResult) → Reports r (execute_outcome r).0 (execute_outcome r).1
unfolding execute_outcome
execute_outcome-Reports (returned b) = it_returned
execute_outcome-Reports (reverted b) = it_reverted
execute_outcome-Reports abi_decoding_failed = not_decoded

pub Reports-execute_outcome :
    (r : CallResult) (success : Bool) (b : Bytes)
    → Reports r success b
    → execute_outcome r ≡ (success, b)
unfolding execute_outcome
Reports-execute_outcome _ _ _ it_returned = refl
Reports-execute_outcome _ _ _ it_reverted = refl
Reports-execute_outcome _ _ _ not_decoded = refl
