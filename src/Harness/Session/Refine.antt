-- ===== src/Harness/Session/Refine.antt =====
-- The sessions against the scenarios: the harness with its commands, and the scenario with its
-- transactions on the account that the session deploys.
use stylus_mobile_native_aut.Base.{ℕ, not, [], arith}
use stylus_mobile_native_aut.Bytes.{Bytes}
use stylus_mobile_native_aut.Eip712.{word}
use stylus_mobile_native_aut.Receivers.{bytes_eq}
use stylus_mobile_native_aut.Harness.Digests.{keccak256}
use stylus_mobile_native_aut.Harness.Node.{Node, garbage}
use stylus_mobile_native_aut.Harness.Receipt.{Json}
use stylus_mobile_native_aut.Harness.Scenarios
use stylus_mobile_native_aut.Harness.Scenarios.{
  Keypair, call_hash, rotation_hash, wrong_owner_x, wrong_owner_y, inner_succeeded, bad_receipt,
}
use stylus_mobile_native_aut.Harness.Session
use stylus_mobile_native_aut.Harness.Session.{
  as_trial, of_receipt, owner_x_mismatch, owner_y_mismatch, inner_call_succeeded,
}
use stylus_mobile_native_aut.Harness.Session.Checks.{owner_x-Sim, owner_y-Sim, one_wei-Sim}
use stylus_mobile_native_aut.Harness.Session.Replies.{deploy-Sim}
use stylus_mobile_native_aut.Harness.Session.Signed.{
  IsKey, funded-Sim, wei-Sim, call-Sim, call_receipt-Sim, rotation-Sim, check-Sim, outcome-Sim,
  wallet_text-Names, wallet_bytes,
}
use stylus_mobile_native_aut.Harness.Session.Sim.{
  same_owner_x, same_owner_y, same_success, Sim, Sim-follow, ensure-follow, Ended, Sim-Ended,
}
use stylus_mobile_native_aut.Harness.Session.World.{wallet, Setting}
use stylus_mobile_native_aut.Harness.Shell.{Tools}
use stylus_mobile_native_aut.Harness.Shell.Commands.{Ctx}

module _ (setting : Setting) (sys : setting.tools.Sys) where
  abbrev tools : Tools
  tools = setting.tools

  abbrev ctx : Ctx
  ctx = setting.ctx

  abbrev digest : Bytes → Bytes
  digest = keccak256 setting.keccak

  abbrev node : Node (setting.world.host (setting.world.next_account sys))
  node = setting.world.node (setting.world.next_account sys)

  pub happy_path-Sim :
      (kp : Keypair)
      → IsKey kp
      → Sim Ended
          (Session.test_execute_happy_path tools digest kp ctx sys)
          (Scenarios.test_execute_happy_path node kp (wallet ctx))
  unfolding Session.test_execute_happy_path Scenarios.test_execute_happy_path
  happy_path-Sim kp key =
      Sim-follow
        (deploy-Sim tools setting.world ctx setting.keccak setting.speaks kp sys key.small_x
          key.small_y)
        (λ acct s1 d1 (named, same, at1).
          Sim-follow (funded-Sim setting sys acct named same s1 d1 at1) (λ _ s2 d2 at2.
            Sim-follow
              (call-Sim setting sys acct named same s2 d2 at2 kp 1_000_000_000 0 key (omega arith)
                (omega arith))
              (λ _ s3 d3 at3. Sim-Ended (check-Sim setting sys acct named same s3 d3 at3 1))))

  pub rotate_owner-Sim :
      (kp_old kp_new : Keypair)
      → IsKey kp_old
      → IsKey kp_new
      → Sim Ended
          (Session.test_rotate_owner_changes_state tools digest kp_old kp_new ctx sys)
          (Scenarios.test_rotate_owner_changes_state node kp_old kp_new)
  unfolding Session.test_rotate_owner_changes_state Scenarios.test_rotate_owner_changes_state
  rotate_owner-Sim kp kp' key key' =
      Sim-follow
        (deploy-Sim tools setting.world ctx setting.keccak setting.speaks kp sys key.small_x
          key.small_y)
        (λ acct s1 d1 (named, same, at1).
          Sim-follow
            (rotation-Sim setting sys acct named same s1 d1 at1 kp kp' 0 key key' (omega arith))
            (λ _ s2 d2 at2.
              Sim-follow
                (owner_x-Sim tools setting.hex setting.world ctx setting.keccak setting.speaks _
                  acct.0 named s2 d2 at2)
                (λ x s3 x' (same_x, at3).
                  Sim-follow
                    (owner_y-Sim tools setting.hex setting.world ctx setting.keccak setting.speaks _
                      acct.0 named s3 d2 at3)
                    (λ y s4 y' (same_y, at4).
                      rw (same_x, same_y)
                        (ensure-follow (bytes_eq x' (word kp'.pub_x)) (owner_x_mismatch x')
                          wrong_owner_x s4 _ _ same_owner_x
                          (ensure-follow (bytes_eq y' (word kp'.pub_y)) (owner_y_mismatch y')
                            wrong_owner_y s4 _ _ same_owner_y
                            (Sim-Ended (check-Sim setting sys acct named same s4 d2 at4 1))))))))

  pub monotonicity-Sim :
      (kp1 kp2 : Keypair)
      → IsKey kp1
      → IsKey kp2
      → Sim Ended
          (Session.test_nonce_monotonicity_across_execute_and_rotate tools digest kp1 kp2 ctx sys)
          (Scenarios.test_nonce_monotonicity_across_execute_and_rotate node kp1 kp2 (wallet ctx))
  unfolding Session.test_nonce_monotonicity_across_execute_and_rotate
      Scenarios.test_nonce_monotonicity_across_execute_and_rotate
  monotonicity-Sim kp kp' key key' =
      Sim-follow
        (deploy-Sim tools setting.world ctx setting.keccak setting.speaks kp sys key.small_x
          key.small_y)
        (λ acct s1 d1 (named, same, at1).
          Sim-follow (funded-Sim setting sys acct named same s1 d1 at1) (λ _ s2 d2 at2.
            Sim-follow
              (call-Sim setting sys acct named same s2 d2 at2 kp 1 0 key (omega arith)
                (omega arith))
              (λ _ s3 d3 at3.
                Sim-follow (check-Sim setting sys acct named same s3 d3 at3 1) (λ _ s4 _ at4.
                  Sim-follow
                    (rotation-Sim setting sys acct named same s4 d3 at4 kp kp' 1 key key'
                      (omega arith))
                    (λ _ s5 d5 at5.
                      Sim-follow (check-Sim setting sys acct named same s5 d5 at5 2) (λ _ s6 _ at6.
                        Sim-follow
                          (call-Sim setting sys acct named same s6 d5 at6 kp' 1 2 key' (omega arith)
                            (omega arith))
                          (λ _ s7 d7 at7.
                            Sim-Ended (check-Sim setting sys acct named same s7 d7 at7 3))))))))

  module _ (json : Json) where
    pub reverting-Sim :
        (kp : Keypair)
        → IsKey kp
        → Sim Ended
            (Session.test_execute_reverting_target_consumes_nonce tools digest json kp ctx sys)
            (Scenarios.test_execute_reverting_target_consumes_nonce json node kp)
    unfolding Session.test_execute_reverting_target_consumes_nonce
        Scenarios.test_execute_reverting_target_consumes_nonce
    reverting-Sim kp key =
        Sim-follow
          (deploy-Sim tools setting.world ctx setting.keccak setting.speaks kp sys key.small_x
            key.small_y)
          (λ acct s1 d1 (named, same, at1).
            Sim-follow
              (call_receipt-Sim setting sys acct named same s1 d1 at1 kp acct.0 acct.1 _ 0 garbage
                key named same (omega arith) (ground arith))
              (λ receipt s2 (receipt', d2) (same_receipt, at2). rw same_receipt (
                Sim-follow (outcome-Sim setting sys json receipt' s2)
                  (λ found s3 found' (same_found, at3).
                    rw (same_found, at3)
                      (ensure-follow (not found'.0) inner_call_succeeded inner_succeeded s2 _ _
                        same_success
                        (Sim-Ended (check-Sim setting sys acct named same s2 d2 at2 1)))))))

    pub value_exceeds-Sim :
        (kp : Keypair)
        → IsKey kp
        → Sim Ended
            (Session.test_execute_value_exceeds_balance tools digest json kp ctx sys)
            (Scenarios.test_execute_value_exceeds_balance json node kp (wallet ctx))
    unfolding Session.test_execute_value_exceeds_balance
        Scenarios.test_execute_value_exceeds_balance
    value_exceeds-Sim kp key =
        Sim-follow
          (deploy-Sim tools setting.world ctx setting.keccak setting.speaks kp sys key.small_x
            key.small_y)
          (λ acct s1 d1 (named, same, at1).
            Sim-follow (wei-Sim setting sys acct named same s1 d1 at1) (λ _ s2 d2 at2.
              Sim-follow
                (one_wei-Sim tools setting.hex setting.world ctx setting.keccak setting.speaks _
                  acct.0 named s2 d2 at2)
                (λ _ s3 _ at3.
                  Sim-follow
                    (call_receipt-Sim setting sys acct named same s3 d2 at3 kp ctx.dev_addr_hex
                      ctx.dev_addr (wallet ctx) 2 [] key (wallet_text-Names setting sys)
                      (wallet_bytes setting sys) (omega arith) tt)
                    (λ receipt s4 (receipt', d4) (same_receipt, at4). rw same_receipt (
                      Sim-follow (outcome-Sim setting sys json receipt' s4)
                        (λ found s5 found' (same_found, at5).
                          rw (same_found, at5)
                            (ensure-follow (not found'.0) inner_call_succeeded inner_succeeded s4 _
                              _ same_success
                              (Sim-follow
                                (one_wei-Sim tools setting.hex setting.world ctx setting.keccak
                                  setting.speaks _ acct.0 named s4 d4 at4)
                                (λ _ s6 _ at6.
                                  Sim-Ended
                                    (check-Sim setting sys acct named same s6 d4 at6 1))))))))))

    -- On a chain that the tools speak for, and with keys that are 32-byte words and whose signatures are
    -- bytes, each of the five tests, run as commands, ends as its scenario ends on the node of the
    -- account that it deploys: both pass, both panic, or both fail, with a command that fails where the
    -- scenario fails in a deployment, a transaction or a read, and otherwise with the same check or the
    -- same error of the receipt parser. No key has to be valid, and no node to obey `IsNode`.
    pub sessions_refine :
        (generate : ℕ → Keypair)
        → ((n : ℕ) → IsKey (generate n))
        → let to = wallet ctx in
          Sim Ended
            (Session.test_execute_happy_path tools digest (generate 0) ctx sys)
            (Scenarios.test_execute_happy_path node (generate 0) to)
          × Sim Ended
              (Session.test_execute_reverting_target_consumes_nonce tools digest json
                (generate 1)
                ctx
                sys)
              (Scenarios.test_execute_reverting_target_consumes_nonce json node (generate 1))
          × Sim Ended
              (Session.test_execute_value_exceeds_balance tools digest json (generate 2) ctx sys)
              (Scenarios.test_execute_value_exceeds_balance json node (generate 2) to)
          × Sim Ended
              (Session.test_rotate_owner_changes_state tools digest
                (generate 3)
                (generate 4)
                ctx
                sys)
              (Scenarios.test_rotate_owner_changes_state node (generate 3) (generate 4))
          × Sim Ended
              (Session.test_nonce_monotonicity_across_execute_and_rotate tools digest
                (generate 5)
                (generate 6)
                ctx
                sys)
              (Scenarios.test_nonce_monotonicity_across_execute_and_rotate node
                (generate 5)
                (generate 6)
                to)
    sessions_refine generate keys = (
      happy_path-Sim (generate 0) (keys 0),
      reverting-Sim (generate 1) (keys 1),
      value_exceeds-Sim (generate 2) (keys 2),
      rotate_owner-Sim (generate 3) (generate 4) (keys 3) (keys 4),
      monotonicity-Sim (generate 5) (generate 6) (keys 5) (keys 6),
    )
