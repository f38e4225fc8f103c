-- ===== src/Harness/Session/Table.antt =====
-- `TESTS`, the table of the five tests, and how they end on a chain of nodes that run the account.
use stylus_mobile_native_aut.Base.{ℕ, ◌≡◌, refl, List, [], ◌∷◌, Result, ok, arith}
use stylus_mobile_native_aut.Bytes.{Bytes}
use stylus_mobile_native_aut.Harness.{as_bytes}
use stylus_mobile_native_aut.Harness.Digests.{keccak256}
use stylus_mobile_native_aut.Harness.Node.{IsNode}
use stylus_mobile_native_aut.Harness.Receipt.{Json}
use stylus_mobile_native_aut.Harness.Runner.{Test, AllPass}
use stylus_mobile_native_aut.Harness.Scenarios.{Keypair, Step}
use stylus_mobile_native_aut.Harness.Scenarios.Steps.{CanSign}
use stylus_mobile_native_aut.Harness.Scenarios.Passing.{
  test_execute_happy_path_passes, test_rotate_owner_passes, test_nonce_monotonicity_passes,
}
use stylus_mobile_native_aut.Harness.Scenarios.Funds.{
  test_execute_reverting_target_passes, test_execute_value_exceeds_balance_passes,
}
use stylus_mobile_native_aut.Harness.Session.{
  TestError, test_execute_happy_path, test_execute_reverting_target_consumes_nonce,
  test_execute_value_exceeds_balance, test_rotate_owner_changes_state,
  test_nonce_monotonicity_across_execute_and_rotate,
}
use stylus_mobile_native_aut.Harness.Session.Refine.{
  happy_path-Sim, reverting-Sim, value_exceeds-Sim, rotate_owner-Sim, monotonicity-Sim,
}
use stylus_mobile_native_aut.Harness.Session.Signed.{IsKey}
use stylus_mobile_native_aut.Harness.Session.Sim.{Sim, both_ok, both_err, both_panic, Ended}
use stylus_mobile_native_aut.Harness.Session.World.{Setting, wallet}
use stylus_mobile_native_aut.Harness.Shell.{Tools}
use stylus_mobile_native_aut.Harness.Shell.Commands.{Ctx}

module _ (tools : Tools) (digest : Bytes → Bytes) (json : Json) (generate : ℕ → Keypair) where
  -- `generate n` is the key that the n-th call of `Keypair::generate` gives.
  unfoldable pub tests : List (Test Ctx tools.Sys TestError)
  tests =
      record {
        name = as_bytes "happy_path";
        run = test_execute_happy_path tools digest (generate 0);
      }
      ∷ record {
        name = as_bytes "reverting_target_consumes_nonce";
        run = test_execute_reverting_target_consumes_nonce tools digest json (generate 1);
      }
      ∷ record {
        name = as_bytes "value_exceeds_balance";
        run = test_execute_value_exceeds_balance tools digest json (generate 2);
      }
      ∷ record {
        name = as_bytes "rotate_owner";
        run = test_rotate_owner_changes_state tools digest (generate 3) (generate 4);
      }
      ∷ record {
        name = as_bytes "nonce_monotonicity";
        run =
            test_nonce_monotonicity_across_execute_and_rotate tools digest (generate 5)
              (generate 6);
      }
      ∷ []

-- A test passes where its scenario does.
Sim-passes :
    {Sys : Type 0} {p : Result TestError (Unit {0}) × Sys} {r : Step (Unit {0})}
    → Sim Ended p r
    → r ≡ ok tt
    → p.0 ≡ ok tt
Sim-passes (both_ok h) e = refl
Sim-passes (both_err h) e = absurd (ground (arith, e))
Sim-passes both_panic e = absurd (ground (arith, e))

module _ (setting : Setting) (json : Json) (generate : ℕ → Keypair)
    (nodes : (i : ℕ) → IsNode (setting.world.host i) json (setting.world.node i))
    (can : (i n : ℕ) → CanSign (setting.world.host i) (generate n))
    (keys : (n : ℕ) → IsKey (generate n)) where
  -- Each test of the table passes, from every state.
  pub tests-AllPass :
      AllPass Ctx setting.tools.Sys TestError setting.ctx
        (tests setting.tools (keccak256 setting.keccak) json generate)
  unfolding tests
  tests-AllPass =
      let to = wallet setting.ctx in
      let host = setting.world.host in
      let node = setting.world.node in
      let next = setting.world.next_account in
      (
        λ sys.
            let i = next sys in
            Sim-passes (happy_path-Sim setting sys (generate 0) (keys 0)) (
              test_execute_happy_path_passes (host i) json (node i) (nodes i) (generate 0) to
                (can i 0)),
        (
          λ sys.
              let i = next sys in
              Sim-passes (reverting-Sim setting sys json (generate 1) (keys 1)) (
                test_execute_reverting_target_passes (host i) json (node i) (nodes i) (generate 1)
                  (can i 1)),
          (
            λ sys.
                let i = next sys in
                Sim-passes (value_exceeds-Sim setting sys json (generate 2) (keys 2)) (
                  test_execute_value_exceeds_balance_passes (host i) json (node i) (nodes i)
                    (generate 2) to (can i 2)),
            (
              λ sys.
                  let i = next sys in
                  Sim-passes
                    (rotate_owner-Sim setting sys (generate 3) (generate 4) (keys 3) (keys 4))
                    (test_rotate_owner_passes (host i) json (node i) (nodes i) (generate 3)
                      (generate 4) (can i 3) (can i 4)),
              (
                λ sys.
                    let i = next sys in
                    Sim-passes
                      (monotonicity-Sim setting sys (generate 5) (generate 6) (keys 5) (keys 6))
                      (test_nonce_monotonicity_passes (host i) json (node i) (nodes i) (generate 5)
                        (generate 6) to (can i 5) (can i 6)),
                tt,
              ),
            ),
          ),
        ),
      )
