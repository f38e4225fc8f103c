-- ===== src/Harness/Session/Checks.antt =====
-- What a session reads back and compares, against the checks of the scenario.
use stylus_mobile_native_aut.Base.{ℕ, ◌≡◌, ◌==◌, refl}
use stylus_mobile_native_aut.Bytes.{Bytes, to_be_bytes}
use stylus_mobile_native_aut.Account
use stylus_mobile_native_aut.Chain.{Request, Reply, transact, serve}
use stylus_mobile_native_aut.Harness.{as_bytes, execute_hash, rotate_hash}
use stylus_mobile_native_aut.Harness.Digests.{keccak256}
use stylus_mobile_native_aut.Harness.Node.{Node}
use stylus_mobile_native_aut.Harness.Output.{Text}
use stylus_mobile_native_aut.Harness.Scenarios
use stylus_mobile_native_aut.Harness.Scenarios.{
  Keypair, wrong_balance, require, reply_to, call_hash, rotation_hash,
}
use stylus_mobile_native_aut.Harness.Session
use stylus_mobile_native_aut.Harness.Session.{as_trial, u64_to_u256_be}
use stylus_mobile_native_aut.Harness.Session.Sim.{
  Sim, Sim-follow, ensure-Sim, same_nonce, same_balance,
}
use stylus_mobile_native_aut.Harness.Session.Replies.{read-Sim, balance-Sim}
use stylus_mobile_native_aut.Harness.Session.World.{
  World, Names, Speaks, IsHex, reads_nonce, reads_owner_x, reads_owner_y,
}
use stylus_mobile_native_aut.Harness.Shell.{Tools}
use stylus_mobile_native_aut.Harness.Shell.Commands
use stylus_mobile_native_aut.Harness.Shell.Commands.{Ctx}
use stylus_mobile_native_aut.Harness.Shell.Reads.{decimal-one}

module _ (tools : Tools) (hex : IsHex tools) (world : World tools) (ctx : Ctx) (keccak : Bytes → ℕ)
    (speaks : Speaks tools world ctx keccak) (i : ℕ) where
  abbrev node : Node (world.host i)
  node = world.node i

  -- The digests that are signed.
  module _ (account : Bytes) (same : account ≡ to_be_bytes 20 (world.host i).contract_address) where
    pub call_hash-same :
        (to_bytes : Bytes) (to value : ℕ) (payload : Bytes) (nonce : ℕ)
        → to_bytes ≡ to_be_bytes 20 to
        → execute_hash
            (keccak256 keccak)
            ctx.chain_id
            account
            to_bytes
            (u64_to_u256_be value)
            payload
            (u64_to_u256_be nonce)
          ≡ call_hash node to value payload nonce
    unfolding u64_to_u256_be
    call_hash-same to_bytes to value payload nonce same_to =
        rw (same, same_to, speaks.same_keccak i, speaks.same_chain i) refl

    pub rotation_hash-same :
        (kp : Keypair) (nonce : ℕ)
        → rotate_hash
            (keccak256 keccak)
            ctx.chain_id
            account
            (to_be_bytes 32 kp.pub_x)
            (to_be_bytes 32 kp.pub_y)
            (u64_to_u256_be nonce)
          ≡ rotation_hash node kp nonce
    unfolding u64_to_u256_be
    rotation_hash-same kp nonce = rw (same, speaks.same_keccak i, speaks.same_chain i) refl

  module _ (acct : Text) (named : Names tools acct (world.host i).contract_address)
      (sys : tools.Sys) (s : node.State) (at : world.view i sys ≡ s) where
    -- A check leaves the account as it is.
    abbrev pub Kept : Unit {0} → tools.Sys → Unit {0} → Type 0
    Kept a sys' b = world.view i sys' ≡ s

    nonce_reply :
        reply_to node Request.nonce (world.view i sys)
        ≡ Reply.word (node.machine (world.view i sys)).account.nonce
    unfolding transact serve Account.nonce
    nonce_reply = refl

    owner_x_reply :
        reply_to node Request.owner_x (world.view i sys)
        ≡ Reply.word (node.machine (world.view i sys)).account.owner_x
    unfolding transact serve Account.owner_x
    owner_x_reply = refl

    owner_y_reply :
        reply_to node Request.owner_y (world.view i sys)
        ≡ Reply.word (node.machine (world.view i sys)).account.owner_y
    unfolding transact serve Account.owner_y
    owner_y_reply = refl

    -- The same word is read.
    abbrev pub Same : Bytes → tools.Sys → Bytes → Type 0
    Same got sys' got' = (got ≡ got') × (world.view i sys' ≡ s)

    pub owner_x-Sim :
        Sim Same
          (as_trial (Commands.cast_call_u256 tools acct (as_bytes "ownerX()") sys))
          (Scenarios.cast_call_u256 node Request.owner_x s)
    owner_x-Sim =
        read-Sim tools hex world ctx keccak speaks i acct named sys s at _ _ _ reads_owner_x
          owner_x_reply

    pub owner_y-Sim :
        Sim Same
          (as_trial (Commands.cast_call_u256 tools acct (as_bytes "ownerY()") sys))
          (Scenarios.cast_call_u256 node Request.owner_y s)
    owner_y-Sim =
        read-Sim tools hex world ctx keccak speaks i acct named sys s at _ _ _ reads_owner_y
          owner_y_reply

    pub nonce-Sim :
        (n : ℕ) → Sim Kept (Session.expect_nonce tools acct n sys) (Scenarios.expect_nonce node n s)
    unfolding Session.expect_nonce Scenarios.expect_nonce u64_to_u256_be
    nonce-Sim n =
        Sim-follow
          (read-Sim tools hex world ctx keccak speaks i acct named sys s at _ _ _ reads_nonce
            nonce_reply)
          (λ got sys' got' h. rw h.0 (ensure-Sim _ _ _ sys' same_nonce h.1))

    pub one_wei-Sim :
        Sim Kept
          (Session.expect_balance tools acct (as_bytes "1") sys)
          (Scenarios.expect_balance node 1 s)
    unfolding Session.expect_balance Scenarios.expect_balance
    one_wei-Sim =
        Sim-follow {k = λ wei. require (wei == 1) (wrong_balance wei)}
          (balance-Sim tools hex world ctx keccak speaks i acct named sys s at)
          (λ text sys' wei h. rw (h.0, decimal-one 76 wei) (ensure-Sim _ _ _ sys' same_balance h.1))
