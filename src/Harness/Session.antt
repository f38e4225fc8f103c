-- ===== src/Harness/Session.antt =====
-- The scenarios of contracts/stylus/devnode-tests/src/main.rs as the harness runs them: each step is a
-- command, given as text, and what is checked is read from the command's output. The tools, the keys,
-- the JSON library and the digest are parameters; what is printed is left out.
pub mod Sim
pub mod World
pub mod Replies
pub mod Checks
pub mod Signed
pub mod Refine
pub mod Table
use stylus_mobile_native_aut.Base.{ℕ, Bool, [], Result, ok, err, panic, not, if◌then◌else◌}
use stylus_mobile_native_aut.Bytes.{Bytes}
use stylus_mobile_native_aut.Eip712.{word}
use stylus_mobile_native_aut.Receivers.{bytes_eq}
use stylus_mobile_native_aut.Harness.{as_bytes, u256_be, execute_hash, rotate_hash}
use stylus_mobile_native_aut.Harness.Node.{garbage}
use stylus_mobile_native_aut.Harness.Output.{Text, parse_addr}
use stylus_mobile_native_aut.Harness.Receipt.{
  Json, ReceiptError, parse_executed_outcome_from_receipt,
}
use stylus_mobile_native_aut.Harness.Scenarios.{Keypair}
use stylus_mobile_native_aut.Harness.Shell.{Tools, ShellError, bad_address, Session}
use stylus_mobile_native_aut.Harness.Shell.Commands
use stylus_mobile_native_aut.Harness.Shell.Commands.{Ctx, hex_text, cargo_stylus_deploy}

-- What ends a test: an error of a command, of the receipt parser, or one of the test's own.
pub data TestError : Type 0 where
  of_command : ShellError → TestError
  of_receipt : ReceiptError → TestError
  nonce_mismatch : Bytes → TestError
  owner_x_mismatch owner_y_mismatch : Bytes → TestError
  inner_call_succeeded : TestError
  balance_mismatch : Text → TestError

abbrev pub Trial : Type 0 → Type 0 → Type 0
Trial Sys A = Sys → Result TestError A × Sys

abbrev pub follow :
    {Sys A B : Type 0} → Result TestError A × Sys → (A → Trial Sys B) → Result TestError B × Sys
follow (ok a, sys) g = g a sys
follow (err e, sys) g = (err e, sys)
follow (panic, sys) g = (panic, sys)

infixl 5 ◌>>=◌
abbrev pub ◌>>=◌ : {Sys A B : Type 0} → Trial Sys A → (A → Trial Sys B) → Trial Sys B
◌>>=◌ f g sys = follow (f sys) g

-- The `?` on a command.
abbrev pub as_trial : {Sys A : Type 0} → Result ShellError A × Sys → Result TestError A × Sys
as_trial (ok a, sys) = (ok a, sys)
as_trial (err e, sys) = (err (of_command e), sys)
as_trial (panic, sys) = (panic, sys)

module _ {Sys : Type 0} where
  abbrev pub tool : {A : Type 0} → Session Sys A → Trial Sys A
  tool f sys = as_trial (f sys)

  abbrev pub result : {A : Type 0} → Result TestError A → Trial Sys A
  result r sys = (r, sys)

  -- `if !c { bail!(...) }`
  abbrev pub ensure : Bool → TestError → Trial Sys (Unit {0})
  ensure c e sys = (if c then ok tt else err e, sys)

unfoldable pub u64_to_u256_be : ℕ → Bytes
u64_to_u256_be n = u256_be n

module _ (tools : Tools) where
  -- The address as text and as bytes.
  unfoldable pub deploy_fresh : Keypair → Text → Trial tools.Sys (Text × Bytes)
  deploy_fresh kp dev_addr_hex = do
    addr_str ← tool (cargo_stylus_deploy tools (word kp.pub_x) (word kp.pub_y) dev_addr_hex)
    result (elim (parse_addr tools.hex_decode addr_str) [
      | ok addr_bytes ↦ ok (addr_str, addr_bytes)
      | err e ↦ err (of_command (bad_address e))
      | panic ↦ panic
    ])

  -- The nonce that the account answers is the one expected.
  unfoldable pub expect_nonce : Text → ℕ → Trial tools.Sys (Unit {0})
  unfolding u64_to_u256_be
  expect_nonce acct_str expected = do
    new_nonce ← tool (Commands.cast_call_u256 tools acct_str (as_bytes "nonce()"))
    ensure (bytes_eq new_nonce (u64_to_u256_be expected)) (nonce_mismatch new_nonce)

  -- The account's balance is printed as this text.
  unfoldable pub expect_balance : Text → Text → Trial tools.Sys (Unit {0})
  expect_balance acct_str expected = do
    balance ← tool (Commands.cast_call_balance tools acct_str)
    ensure (bytes_eq balance expected) (balance_mismatch balance)

  module _ (digest : Bytes → Bytes) where
    unfoldable pub test_execute_happy_path : Keypair → Ctx → Trial tools.Sys (Unit {0})
    unfolding deploy_fresh expect_nonce u64_to_u256_be
    test_execute_happy_path kp ctx = do
      (acct_str, acct_bytes) ← deploy_fresh kp ctx.dev_addr_hex
      funded ← tool (Commands.cast_send_value tools acct_str (as_bytes "1000000000000000000"))
      let to_bytes = ctx.dev_addr
      let to_str = hex_text tools to_bytes
      let hash =
          execute_hash digest ctx.chain_id acct_bytes to_bytes (u64_to_u256_be 1_000_000_000) []
            (u64_to_u256_be 0)
      let sig = kp.sign hash
      sent ← tool (Commands.cast_send_execute tools acct_str to_str 1_000_000_000 [] 0 sig)
      expect_nonce acct_str 1

    unfoldable pub test_rotate_owner_changes_state :
        Keypair → Keypair → Ctx → Trial tools.Sys (Unit {0})
    unfolding deploy_fresh expect_nonce u64_to_u256_be
    test_rotate_owner_changes_state kp_old kp_new ctx = do
      (acct_str, acct_bytes) ← deploy_fresh kp_old ctx.dev_addr_hex
      let hash =
          rotate_hash digest ctx.chain_id acct_bytes (word kp_new.pub_x) (word kp_new.pub_y)
            (u64_to_u256_be 0)
      let sig = kp_old.sign hash
      sent ←
          tool
            (Commands.cast_send_rotate tools acct_str (word kp_new.pub_x) (word kp_new.pub_y) 0 sig)
      on_chain_x ← tool (Commands.cast_call_u256 tools acct_str (as_bytes "ownerX()"))
      on_chain_y ← tool (Commands.cast_call_u256 tools acct_str (as_bytes "ownerY()"))
      rotated_x ← ensure (bytes_eq on_chain_x (word kp_new.pub_x)) (owner_x_mismatch on_chain_x)
      rotated_y ← ensure (bytes_eq on_chain_y (word kp_new.pub_y)) (owner_y_mismatch on_chain_y)
      expect_nonce acct_str 1

    -- The first call, the rotation, and the call that the new key signs.
    unfoldable pub test_nonce_monotonicity_across_execute_and_rotate :
        Keypair → Keypair → Ctx → Trial tools.Sys (Unit {0})
    unfolding deploy_fresh expect_nonce u64_to_u256_be
    test_nonce_monotonicity_across_execute_and_rotate kp1 kp2 ctx = do
      (acct_str, acct_bytes) ← deploy_fresh kp1 ctx.dev_addr_hex
      funded ← tool (Commands.cast_send_value tools acct_str (as_bytes "1000000000000000000"))
      let to_bytes = ctx.dev_addr
      let to_str = hex_text tools to_bytes
      let hash =
          execute_hash digest ctx.chain_id acct_bytes to_bytes (u64_to_u256_be 1) []
            (u64_to_u256_be 0)
      let sig = kp1.sign hash
      first ← tool (Commands.cast_send_execute tools acct_str to_str 1 [] 0 sig)
      at_one ← expect_nonce acct_str 1
      let rotation =
          rotate_hash digest ctx.chain_id acct_bytes (word kp2.pub_x) (word kp2.pub_y)
            (u64_to_u256_be 1)
      let sig2 = kp1.sign rotation
      rotated ←
          tool (Commands.cast_send_rotate tools acct_str (word kp2.pub_x) (word kp2.pub_y) 1 sig2)
      at_two ← expect_nonce acct_str 2
      let hash3 =
          execute_hash digest ctx.chain_id acct_bytes to_bytes (u64_to_u256_be 1) []
            (u64_to_u256_be 2)
      let sig3 = kp2.sign hash3
      second ← tool (Commands.cast_send_execute tools acct_str to_str 1 [] 2 sig3)
      expect_nonce acct_str 3

    module _ (json : Json) where
      -- `parse_executed_outcome_from_receipt(&receipt)?`
      abbrev pub executed_outcome : Text → Trial tools.Sys (Bool × Bytes)
      executed_outcome receipt = result (elim (parse_executed_outcome_from_receipt json receipt) [
        | ok found ↦ ok found
        | err e ↦ err (of_receipt e)
        | panic ↦ panic
      ])

      unfoldable pub test_execute_reverting_target_consumes_nonce :
          Keypair → Ctx → Trial tools.Sys (Unit {0})
      unfolding deploy_fresh expect_nonce u64_to_u256_be
      test_execute_reverting_target_consumes_nonce kp ctx = do
        (acct_str, acct_bytes) ← deploy_fresh kp ctx.dev_addr_hex
        let hash =
            execute_hash digest ctx.chain_id acct_bytes acct_bytes (u64_to_u256_be 0) garbage
              (u64_to_u256_be 0)
        let sig = kp.sign hash
        receipt ←
            tool (Commands.cast_send_execute_with_receipt tools acct_str acct_str 0 garbage 0 sig)
        (success, return_data) ← executed_outcome receipt
        inner_failed ← ensure (not success) inner_call_succeeded
        expect_nonce acct_str 1

      unfoldable pub test_execute_value_exceeds_balance : Keypair → Ctx → Trial tools.Sys (Unit {0})
      unfolding deploy_fresh expect_nonce expect_balance u64_to_u256_be
      test_execute_value_exceeds_balance kp ctx = do
        (acct_str, acct_bytes) ← deploy_fresh kp ctx.dev_addr_hex
        funded ← tool (Commands.cast_send_value tools acct_str (as_bytes "1"))
        balance_before ← expect_balance acct_str (as_bytes "1")
        let hash =
            execute_hash digest ctx.chain_id acct_bytes ctx.dev_addr (u64_to_u256_be 2) []
              (u64_to_u256_be 0)
        let sig = kp.sign hash
        let to_str = ctx.dev_addr_hex
        receipt ← tool (Commands.cast_send_execute_with_receipt tools acct_str to_str 2 [] 0 sig)
        (success, return_data) ← executed_outcome receipt
        inner_failed ← ensure (not success) inner_call_succeeded
        balance_after ← expect_balance acct_str (as_bytes "1")
        expect_nonce acct_str 1
