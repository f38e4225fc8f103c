-- ===== src/Harness/Scenarios.antt =====
-- The specification of the five tests of contracts/stylus/devnode-tests/src/main.rs: what they do to a node
-- that runs the account as Chain does. A `cast send` is a transaction, and an error if that fails; a
-- `cast call` is a read. The tests as they run, with their commands, are in Harness/Session. Key
-- generation, signing, the node and the JSON library are parameters.
pub mod Steps
pub mod Passing
pub mod Funds
pub mod Signing
use stylus_mobile_native_aut.Base.{
  ℕ, Bool, true, false, [], Result, ok, err, panic, ◌==◌, not, if◌then◌else◌,
}
use stylus_mobile_native_aut.Bytes.{Bytes, to_be_bytes}
use stylus_mobile_native_aut.Host.{Host}
use stylus_mobile_native_aut.Eip712.{word}
use stylus_mobile_native_aut.Account.{constructor}
use stylus_mobile_native_aut.Receivers.{bytes_eq}
use stylus_mobile_native_aut.Harness.{u256_be, execute_hash, rotate_hash}
use stylus_mobile_native_aut.Harness.Digests.{keccak256}
use stylus_mobile_native_aut.Harness.Node.{Node, is_reverted, garbage}
use stylus_mobile_native_aut.Harness.Receipt.{
  Json, ReceiptError, parse_executed_outcome_from_receipt,
}
use stylus_mobile_native_aut.Chain.{Request, Reply, transact}
use stylus_mobile_native_aut.Chain.Invariant.{fresh}

-- `Keypair`: the public key, and what `sign` gives for a hash.
pub record Keypair : Type 0 where
  pub pub_x : ℕ
  pub pub_y : ℕ
  pub sign : Bytes → Bytes

pub data Failure : Type 0 where
  deploy_failed send_failed call_failed : Failure
  wrong_owner_x wrong_owner_y : Failure
  wrong_nonce : ℕ → Failure
  bad_receipt : ReceiptError → Failure
  inner_succeeded : Failure
  wrong_balance : ℕ → Failure

abbrev pub Step : Type 0 → Type 0
Step A = Result Failure A

infixl 5 ◌>>=◌
abbrev pub ◌>>=◌ : {A B : Type 0} → Step A → (A → Step B) → Step B
◌>>=◌ (ok a) f = f a
◌>>=◌ (err e) f = err e
◌>>=◌ panic f = panic

-- `if got != expected { bail!(...) }`
abbrev pub require : Bool → Failure → Step (Unit {0})
require c e = if c then ok tt else err e

module _ {host : Host} (node : Node host) where
  -- `deploy_fresh`: the constructor on fresh storage.
  unfoldable pub deploy_fresh : Keypair → Step node.State
  deploy_fresh kp =
      let (r, m) = constructor kp.pub_x kp.pub_y fresh in
      elim r [ ok _ ↦ ok (node.deployed m) | err e ↦ err deploy_failed | panic ↦ err deploy_failed ]

  abbrev pub reply_to : Request → node.State → Reply
  reply_to q s = (transact host (node.code s) q (node.machine s)).0

  unfoldable pub cast_send : Request → node.State → Step node.State
  cast_send q s = if is_reverted (reply_to q s) then err send_failed else ok (node.send q s)

  unfoldable pub cast_send_value : ℕ → node.State → Step node.State
  cast_send_value value s =
      if is_reverted (reply_to Request.receive s) then err send_failed else ok (node.fund value s)

  -- The 32 bytes of the answer.
  unfoldable pub cast_call_u256 : Request → node.State → Step Bytes
  cast_call_u256 q s = elim (reply_to q s) [ Reply.word v ↦ ok (word v) | _ ↦ err call_failed ]

  -- The decimal text that cast prints is read as the number it spells.
  abbrev pub cast_call_balance : node.State → Step ℕ
  cast_call_balance s = ok (node.balance s)

  abbrev pub account : Bytes
  account = to_be_bytes 20 host.contract_address

  abbrev pub hashing : Bytes → Bytes
  hashing = keccak256 host.keccak

  -- The digest that a scenario signs for a call.
  abbrev pub call_hash : ℕ → ℕ → Bytes → ℕ → Bytes
  call_hash to value payload nonce =
      execute_hash hashing host.chain_id account (to_be_bytes 20 to) (u256_be value) payload
        (u256_be nonce)

  abbrev pub rotation_hash : Keypair → ℕ → Bytes
  rotation_hash kp nonce =
      rotate_hash hashing host.chain_id account (word kp.pub_x) (word kp.pub_y) (u256_be nonce)

  unfoldable pub cast_send_execute : ℕ → ℕ → Bytes → ℕ → Bytes → node.State → Step node.State
  unfolding cast_send
  cast_send_execute to value payload nonce sig s =
      cast_send (Request.execute to value payload nonce sig) s

  -- The receipt, and the state after the transaction.
  unfoldable pub cast_send_execute_with_receipt :
      ℕ → ℕ → Bytes → ℕ → Bytes → node.State → Step (Bytes × node.State)
  unfolding cast_send
  cast_send_execute_with_receipt to value payload nonce sig s =
      let q = Request.execute to value payload nonce sig in
      do sent ← cast_send q s; ok (node.receipt q s, sent)

  unfoldable pub cast_send_rotate : ℕ → ℕ → ℕ → Bytes → node.State → Step node.State
  unfolding cast_send
  cast_send_rotate new_x new_y nonce sig s =
      cast_send (Request.rotate_owner new_x new_y nonce sig) s

  unfoldable pub expect_nonce : ℕ → node.State → Step (Unit {0})
  unfolding cast_call_u256
  expect_nonce n s = do
    got ← cast_call_u256 Request.nonce s
    require (bytes_eq got (u256_be n)) (wrong_nonce n)

  unfoldable pub expect_balance : ℕ → node.State → Step (Unit {0})
  expect_balance wei s = do got ← cast_call_balance s; require (got == wei) (wrong_balance got)

  -- `to` is the developer's wallet, here and below.
  unfoldable pub test_execute_happy_path : Keypair → ℕ → Step (Unit {0})
  unfolding deploy_fresh cast_send_value cast_send_execute expect_nonce
  test_execute_happy_path kp to = do
    deployed ← deploy_fresh kp
    funded ← cast_send_value 1_000_000_000_000_000_000 deployed
    let sig = kp.sign (call_hash to 1_000_000_000 [] 0)
    executed ← cast_send_execute to 1_000_000_000 [] 0 sig funded
    expect_nonce 1 executed

  unfoldable pub test_rotate_owner_changes_state : Keypair → Keypair → Step (Unit {0})
  unfolding deploy_fresh cast_send_rotate expect_nonce
  test_rotate_owner_changes_state kp_old kp_new = do
    deployed ← deploy_fresh kp_old
    let sig = kp_old.sign (rotation_hash kp_new 0)
    rotated ← cast_send_rotate kp_new.pub_x kp_new.pub_y 0 sig deployed
    on_chain_x ← cast_call_u256 Request.owner_x rotated
    on_chain_y ← cast_call_u256 Request.owner_y rotated
    matched_x ← require (bytes_eq on_chain_x (word kp_new.pub_x)) wrong_owner_x
    matched_y ← require (bytes_eq on_chain_y (word kp_new.pub_y)) wrong_owner_y
    expect_nonce 1 rotated

  unfoldable pub test_nonce_monotonicity_across_execute_and_rotate :
      Keypair → Keypair → ℕ → Step (Unit {0})
  unfolding deploy_fresh cast_send_value cast_send_execute cast_send_rotate expect_nonce
  test_nonce_monotonicity_across_execute_and_rotate kp1 kp2 to = do
    deployed ← deploy_fresh kp1
    funded ← cast_send_value 1_000_000_000_000_000_000 deployed
    executed ← cast_send_execute to 1 [] 0 (kp1.sign (call_hash to 1 [] 0)) funded
    at_one ← expect_nonce 1 executed
    let second = kp1.sign (rotation_hash kp2 1)
    rotated ← cast_send_rotate kp2.pub_x kp2.pub_y 1 second executed
    at_two ← expect_nonce 2 rotated
    again ← cast_send_execute to 1 [] 2 (kp2.sign (call_hash to 1 [] 2)) rotated
    expect_nonce 3 again

module _ {host : Host} (json : Json) (node : Node host) where
  -- `parse_executed_outcome_from_receipt(&receipt)?`
  abbrev pub executed_outcome : Bytes → Step (Bool × Bytes)
  executed_outcome receipt = elim (parse_executed_outcome_from_receipt json receipt) [
    | ok found ↦ ok found
    | err e ↦ err (bad_receipt e)
    | panic ↦ panic
  ]

  unfoldable pub test_execute_reverting_target_consumes_nonce : Keypair → Step (Unit {0})
  unfolding deploy_fresh cast_send_execute_with_receipt expect_nonce
  test_execute_reverting_target_consumes_nonce kp =
      let to = host.contract_address in
      do
        deployed ← deploy_fresh node kp
        let sig = kp.sign (call_hash node to 0 garbage 0)
        (receipt, executed) ← cast_send_execute_with_receipt node to 0 garbage 0 sig deployed
        (success, return_data) ← executed_outcome receipt
        inner_failed ← require (not success) inner_succeeded
        expect_nonce node 1 executed

  unfoldable pub test_execute_value_exceeds_balance : Keypair → ℕ → Step (Unit {0})
  unfolding deploy_fresh cast_send_value cast_send_execute_with_receipt expect_nonce expect_balance
  test_execute_value_exceeds_balance kp to = do
    deployed ← deploy_fresh node kp
    funded ← cast_send_value node 1 deployed
    balance_before ← expect_balance node 1 funded
    let sig = kp.sign (call_hash node to 2 [] 0)
    (receipt, executed) ← cast_send_execute_with_receipt node to 2 [] 0 sig funded
    (success, return_data) ← executed_outcome receipt
    inner_failed ← require (not success) inner_succeeded
    balance_after ← expect_balance node 1 executed
    expect_nonce node 1 executed
