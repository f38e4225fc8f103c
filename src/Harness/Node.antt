-- ===== src/Harness/Node.antt =====
-- The development node that contracts/stylus/devnode-tests/src/main.rs sends its commands to, as far
-- as the scenarios see it: an interface, and what they rely on.
use stylus_mobile_native_aut.Base.{
  ℕ, ◌+◌, ◌<◌, ◌^◌, ◌≡◌, Bool, true, false, List, [], ◌∷◌, ◌++◌, some, if◌then◌else◌, length,
}
use stylus_mobile_native_aut.Bytes.{Bytes}
use stylus_mobile_native_aut.Host.{Host}
use stylus_mobile_native_aut.Machine.{
  Machine, Outbound, CallResult, returned, reverted, called, logged, executed,
}
use stylus_mobile_native_aut.Chain.{
  Request, Reply, outcome, failed, trapped, Code, finish, call_back, transact,
}
use stylus_mobile_native_aut.Harness.{as_bytes}
use stylus_mobile_native_aut.Harness.Receipt.{Json, array_at, is_executed, trim_start_0x}
use stylus_mobile_native_aut.Harness.Receipt.RoundTrip.{abi_executed}
use stylus_mobile_native_aut.Harness.Receipt.Search.{NoExecuted}

-- The state of the chain around one account: the account's machine and balance, and the code that
-- its calls meet. `send` is a transaction, `fund` a plain transfer to the account, `receipt` the text
-- of a transaction's receipt, `encode` the return data of a call to the account,
-- `inner` what the account calls while it runs in such a call.
pub record Node (host : Host) : Type 1 where
  pub State : Type 0
  pub machine : State → Machine
  pub balance : State → ℕ
  pub code : State → Code host
  pub deployed : Machine → State
  pub send : Request → State → State
  pub fund : ℕ → State → State
  pub receipt : Request → State → Bytes
  pub encode : Reply → Bytes
  pub inner : State → Outbound

-- A call that reverts or traps.
abbrev pub is_reverted : Reply → Bool
is_reverted (failed e) = true
is_reverted trapped = true
is_reverted _ = false

-- The calldata of `reverting_target_consumes_nonce`, which no method claims.
abbrev pub garbage : Bytes
garbage = 0xDE ∷ 0xAD ∷ 0xBE ∷ 0xEF ∷ 0x00 ∷ 0x00 ∷ []

-- A receipt's logs hold one of `Executed` with these values, in the ABI encoding.
pub record HoldsExecuted (json : Json) (text : Bytes) (value nonce : ℕ) (success : Bool)
    (return_data : Bytes) : Type 0 where
  pub root : json.Value
  pub before : List json.Value
  pub after : List json.Value
  pub log : json.Value
  pub data_value : json.Value
  pub data_hex : Bytes
  pub padding : Bytes
  pub parsed : json.from_str text ≡ some root
  pub logs : array_at json root (as_bytes "logs") ≡ some (before ++ (log ∷ after))
  pub none_before : NoExecuted json before
  pub found : is_executed json log ≡ true
  pub at_data : json.get log (as_bytes "data") ≡ some data_value
  pub as_text : json.as_str data_value ≡ some data_hex
  pub decoded :
      json.hex_decode (trim_start_0x data_hex)
      ≡ some (abi_executed value nonce success return_data padding)

-- What a call to the account gives its caller.
abbrev pub answer : {host : Host} → Node host → Reply → CallResult
answer node r = if is_reverted r then reverted (node.encode r) else returned (node.encode r)

-- What the scenarios rely on.
pub record IsNode (host : Host) (json : Json) (node : Node host) : Type 0 where
  pub deployed_machine : (m : Machine) → node.machine (node.deployed m) ≡ m
  pub deployed_balance : (m : Machine) → node.balance (node.deployed m) ≡ 0
  pub send_machine :
      (q : Request) (s : node.State)
      → node.machine (node.send q s) ≡ (transact host (node.code s) q (node.machine s)).1
  pub fund_machine :
      (v : ℕ) (s : node.State)
      → node.machine (node.fund v s)
        ≡ (transact host (node.code s) Request.receive (node.machine s)).1
  pub fund_balance : (v : ℕ) (s : node.State) → node.balance (node.fund v s) ≡ node.balance s + v
  -- A call with more value than the balance fails, with no return data.
  pub out_of_funds :
      (s : node.State) (to value : ℕ) (payload : Bytes) (m : Machine)
      → node.balance s < value
      → node.code s to value payload m ≡ finish (reverted [])
  -- A call that fails moves no ether.
  pub failed_balance :
      (s : node.State) (to value n : ℕ) (payload sig return_data : Bytes)
      → (transact host (node.code s) (Request.execute to value payload n sig) (node.machine s)).0
        ≡ outcome false return_data
      → node.balance (node.send (Request.execute to value payload n sig) s) ≡ node.balance s
  -- A call to the account's own address runs the account's code.
  pub own_code :
      (s : node.State) (m : Machine)
      → node.code s host.contract_address 0 garbage m
        ≡ call_back (Request.unknown garbage) (node.inner s) (λ r. finish (answer node r))
  pub encode_small : (r : Reply) → length (node.encode r) + 160 < 2 ^ 64
  -- The receipt of a transaction holds the event that the transaction logs.
  pub receipt_logs :
      (s : node.State) (q : Request) (to value n : ℕ) (payload return_data : Bytes) (success : Bool)
      → (transact host (node.code s) q (node.machine s)).1.journal
        ≡ (node.machine s).journal
          ++ (called to value payload ∷ logged (executed to value n success return_data) ∷ [])
      → HoldsExecuted json (node.receipt q s) value n success return_data
