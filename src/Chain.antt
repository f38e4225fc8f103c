-- ===== src/Chain.antt =====
-- The account as the chain runs it: the calls that can reach a deployed account, the frame in which
-- each runs, and callees that call the account back while one of its calls is still open.
pub mod Guard
pub mod Transition
pub mod Settled
pub mod Refine
pub mod Effect
pub mod Invariant
pub mod History
pub mod Progress
pub mod Views
pub mod Answers
use stylus_mobile_native_aut.Base.{ℕ, Bool, List, Result, ok, err, panic}
use stylus_mobile_native_aut.Bytes.{Bytes}
use stylus_mobile_native_aut.Host.{Host}
use stylus_mobile_native_aut.Errors.{P256AccountError, Checked}
use stylus_mobile_native_aut.Machine.{
  Machine, CallResult, returned, reverted, abi_decoding_failed, Outbound, Action, pure,
}
use stylus_mobile_native_aut.Account
use stylus_mobile_native_aut.Receivers
use stylus_mobile_native_aut.Receivers.{supports_interface}

-- A call to the account: a public method with its arguments, calldata that no method claims, or a
-- bare transfer of ether. The constructor runs at deployment only.
pub data Request : Type 0 where
  execute : ℕ → ℕ → Bytes → ℕ → Bytes → Request
  execute_batch : List ℕ → List ℕ → List Bytes → ℕ → Bytes → Request
  rotate_owner : ℕ → ℕ → ℕ → Bytes → Request
  owner_x owner_y nonce : Request
  verify is_valid_signature : ℕ → Bytes → Request
  on_erc721_received : ℕ → ℕ → ℕ → Bytes → Request
  on_erc1155_received : ℕ → ℕ → ℕ → ℕ → Bytes → Request
  on_erc1155_batch_received : ℕ → ℕ → List ℕ → List ℕ → Bytes → Request
  interface_query : Bytes → Request
  unknown : Bytes → Request
  receive : Request

-- What the caller gets back.
pub data Reply : Type 0 where
  nothing : Reply
  outcome : Bool → Bytes → Reply
  word : ℕ → Reply
  flag : Bool → Reply
  bytes : Bytes → Reply
  failed : P256AccountError → Reply
  trapped : Reply

-- A frame: what it wrote is kept if it ends well, and undone if it reverts or traps.
abbrev pub frame : {A : Type 0} → Action A → (A → Reply) → Machine → Reply × Machine
frame f reply m =
    let (r, m') = f m in
    elim r [ ok a ↦ (reply a, m') | err e ↦ (failed e, m) | panic ↦ (trapped, m) ]

module _ (host : Host) where
  unfoldable pub serve : Outbound → Request → Machine → Reply × Machine
  serve out (execute to value payload n sig) =
      frame (Account.execute host out to value payload n sig) (λ r. outcome r.0 r.1)
  serve out (execute_batch to value payloads n sig) =
      frame (Account.execute_batch host out to value payloads n sig) (λ _. nothing)
  serve out (rotate_owner new_x new_y n sig) =
      frame (Account.rotate_owner host new_x new_y n sig) (λ _. nothing)
  serve out owner_x = frame Account.owner_x word
  serve out owner_y = frame Account.owner_y word
  serve out nonce = frame Account.nonce word
  serve out (verify hash sig) = frame (Account.verify host hash sig) flag
  serve out (is_valid_signature hash sig) = frame (Account.is_valid_signature host hash sig) bytes
  serve out (on_erc721_received a b c d) = frame (Receivers.on_erc721_received a b c d) bytes
  serve out (on_erc1155_received a b c d e) = frame (Receivers.on_erc1155_received a b c d e) bytes
  serve out (on_erc1155_batch_received a b c d e) =
      frame (Receivers.on_erc1155_batch_received a b c d e) bytes
  serve out (interface_query id) = frame (pure (supports_interface id)) flag
  serve out (unknown input) = frame (Receivers.fallback input) bytes
  serve out receive = frame Receivers.receive (λ _. nothing)

  -- A callee: it calls the account back any number of times, each time choosing by the reply what
  -- to do next, and then returns or reverts. `Outbound` is what a call that the account itself
  -- would make in such a nested frame meets: anything at all.
  pub data Program : Type 0 where
    finish : CallResult → Program
    call_back : Request → Outbound → (Reply → Program) → Program

  unfoldable pub run_program : Program → Machine → CallResult × Machine
  run_program (finish r) m = (r, m)
  run_program (call_back q out next) m =
      let (reply, m') = serve out q m in run_program (next reply) m'

  -- The code on the chain: what runs when the account calls an address with a value and data.
  abbrev pub Code : Type 0
  Code = ℕ → ℕ → Bytes → Machine → Program

  -- A callee that fails leaves nothing behind.
  abbrev pub settle : CallResult × Machine → Machine → CallResult × Machine
  settle (returned b, m') m = (returned b, m')
  settle (reverted b, m') m = (reverted b, m)
  settle (abi_decoding_failed, m') m = (abi_decoding_failed, m)

  unfoldable pub world : Code → Outbound
  world code to value payload m = settle (run_program (code to value payload m) m) m

  -- A transaction to the account.
  unfoldable pub transact : Code → Request → Machine → Reply × Machine
  transact code q m = serve (world code) q m
