-- ===== src/Harness/Main/Passing.antt =====
-- What the command line ends with on a chain of nodes that run the account.
use stylus_mobile_native_aut.Base.{
  ℕ, ◌≡◌, refl, ◌⊎◌, inl, inr, List, [], ◌∷◌, Option, none, some, Result, ok, err, panic, arith,
}
use stylus_mobile_native_aut.Bytes.{Bytes}
use stylus_mobile_native_aut.Harness.{as_bytes}
use stylus_mobile_native_aut.Harness.Digests.{keccak256}
use stylus_mobile_native_aut.Harness.Output.{Text}
use stylus_mobile_native_aut.Harness.Output.Parse.{parse_addr-decoded}
use stylus_mobile_native_aut.Harness.Main.{Cmd, all, list, run, main, after}
use stylus_mobile_native_aut.Harness.Node.{IsNode}
use stylus_mobile_native_aut.Harness.Receipt.{Json}
use stylus_mobile_native_aut.Harness.Runner.{
  Test, RunError, AllPass, run_all, run_one, find_test, run_all-AllPass, run_one-AllPass,
}
use stylus_mobile_native_aut.Harness.Scenarios.{Keypair}
use stylus_mobile_native_aut.Harness.Scenarios.Steps.{CanSign}
use stylus_mobile_native_aut.Harness.Session.{TestError}
use stylus_mobile_native_aut.Harness.Session.Signed.{IsKey}
use stylus_mobile_native_aut.Harness.Session.Table.{tests, tests-AllPass}
use stylus_mobile_native_aut.Harness.Session.World.{World, IsHex, IsContext, Speaks}
use stylus_mobile_native_aut.Harness.Shell.{Tools, ShellError}
use stylus_mobile_native_aut.Harness.Shell.Commands.{Ctx, make_ctx}
use stylus_mobile_native_aut.Harness.Shell.Setup.{make_ctx-parsed}

-- The names of the five tests.
abbrev pub scenario_names : List Text
scenario_names =
    as_bytes "happy_path"
    ∷ as_bytes "reverting_target_consumes_nonce"
    ∷ as_bytes "value_exceeds_balance"
    ∷ as_bytes "rotate_owner"
    ∷ as_bytes "nonce_monotonicity"
    ∷ []

abbrev pub IsName : Text → Type 0
IsName name =
    (name ≡ as_bytes "happy_path")
    ⊎ (name ≡ as_bytes "reverting_target_consumes_nonce")
    ⊎ (name ≡ as_bytes "value_exceeds_balance")
    ⊎ (name ≡ as_bytes "rotate_owner")
    ⊎ (name ≡ as_bytes "nonce_monotonicity")

-- A command that names a test, or none.
abbrev pub Offered : Option Cmd → Type 0
Offered (some (run name)) = IsName name
Offered cmd = Unit {0}

-- `list` prints the names; every other command prints none.
abbrev pub printed : Option Cmd → List Text
printed (some list) = scenario_names
printed cmd = []

-- After a setup that succeeds, what the tests end with counts.
after-ok :
    (tools : Tools) (ts : List (Test Ctx tools.Sys TestError))
    (p : Result ShellError Ctx × tools.Sys) (ctx : Ctx)
    (body : Ctx → tools.Sys → Result (RunError Ctx tools.Sys TestError) (Unit {0}) × tools.Sys)
    → p.0 ≡ ok ctx
    → ((sys : tools.Sys) → (body ctx sys).0 ≡ ok tt)
    → (after tools ts p body).0 ≡ ok []
after-ok tools ts (ok c, sys) ctx body e passes =
    let same : c ≡ ctx = ground (arith, e) in rw (same, passes sys) refl
after-ok tools ts (err x, sys) ctx body e passes = absurd (ground (arith, e))
after-ok tools ts (panic, sys) ctx body e passes = absurd (ground (arith, e))

-- The context of a setup that succeeds.
pub make_ctx-IsContext :
    (tools : Tools) (hex : IsHex tools) (sys : tools.Sys) (ctx : Ctx)
    → (make_ctx tools sys).0 ≡ ok ctx
    → IsContext tools ctx
make_ctx-IsContext tools hex sys ctx made =
    let (parsed, size) = make_ctx-parsed tools sys ctx made in
    record {
      valid =
          hex.gives_bytes _ _
            (parse_addr-decoded tools.hex_decode ctx.dev_addr_hex ctx.dev_addr parsed);
      size = size;
      parsed = parsed;
    }

module _ (tools : Tools) (hex : IsHex tools) (world : World tools) (keccak : Bytes → ℕ)
    (json : Json) (generate : ℕ → Keypair)
    (nodes : (i : ℕ) → IsNode (world.host i) json (world.node i))
    (can : (i n : ℕ) → CanSign (world.host i) (generate n))
    (keys : (n : ℕ) → IsKey (generate n)) where
  abbrev table : List (Test Ctx tools.Sys TestError)
  table = tests tools (keccak256 keccak) json generate

  module _ (ctx : Ctx) (context : IsContext tools ctx)
      (speaks : Speaks tools world ctx keccak) where
    table-AllPass : AllPass Ctx tools.Sys TestError ctx table
    table-AllPass =
        tests-AllPass
          (record {
            tools = tools;
            hex = hex;
            world = world;
            ctx = ctx;
            context = context;
            keccak = keccak;
            speaks = speaks;
          })
          json generate nodes can keys

    named_passes :
        (name : Text) {t : Test Ctx tools.Sys TestError} (sys : tools.Sys)
        → find_test Ctx tools.Sys TestError name table ≡ some t
        → (run_one Ctx tools.Sys TestError table ctx name sys).0 ≡ ok tt
    named_passes name sys found =
        run_one-AllPass Ctx tools.Sys TestError ctx table name _ sys table-AllPass found

    one_passes :
        (name : Text) (sys : tools.Sys)
        → IsName name
        → (run_one Ctx tools.Sys TestError table ctx name sys).0 ≡ ok tt
    unfolding find_test tests
    one_passes name sys known = elim known [
      | inl e ↦ rw e (named_passes (as_bytes "happy_path") sys refl)
      | inr (inl e) ↦ rw e (named_passes (as_bytes "reverting_target_consumes_nonce") sys refl)
      | inr (inr (inl e)) ↦ rw e (named_passes (as_bytes "value_exceeds_balance") sys refl)
      | inr (inr (inr (inl e))) ↦ rw e (named_passes (as_bytes "rotate_owner") sys refl)
      | inr (inr (inr (inr e))) ↦ rw e (named_passes (as_bytes "nonce_monotonicity") sys refl)
    ]

    all_pass : (sys : tools.Sys) → (run_all Ctx tools.Sys TestError table ctx sys).0 ≡ ok tt
    all_pass sys = run_all-AllPass Ctx tools.Sys TestError ctx table sys table-AllPass

  pub main_passes :
      (cmd : Option Cmd) (sys : tools.Sys) (ctx : Ctx)
      → Offered cmd
      → (make_ctx tools sys).0 ≡ ok ctx
      → Speaks tools world ctx keccak
      → (main tools (tests tools (keccak256 keccak) json generate) cmd sys).0 ≡ ok (printed cmd)
  unfolding main tests
  main_passes none sys ctx known made speaks =
      let context = make_ctx-IsContext tools hex sys ctx made in
      after-ok tools table (make_ctx tools sys) ctx _ made (all_pass ctx context speaks)
  main_passes (some all) sys ctx known made speaks =
      let context = make_ctx-IsContext tools hex sys ctx made in
      after-ok tools table (make_ctx tools sys) ctx _ made (all_pass ctx context speaks)
  main_passes (some list) sys ctx known made speaks = refl
  main_passes (some (run name)) sys ctx known made speaks =
      let context = make_ctx-IsContext tools hex sys ctx made in
      after-ok tools table (make_ctx tools sys) ctx
        (λ c. run_one Ctx tools.Sys TestError table c name) made
        (λ sys'. one_passes ctx context speaks name sys' known)
