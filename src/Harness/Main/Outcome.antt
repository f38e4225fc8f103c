-- ===== src/Harness/Main/Outcome.antt =====
-- What each command of the harness comes to, in every case.
use stylus_mobile_native_aut.Base.{
  ℕ, zero, suc, ◌≢◌, ◌+◌, ◌<◌, ◌≡◌, refl, ap, inl, inr, List, [], Option, none, some, Result, ok,
  err, panic, lt→ltb, arith,
}
use stylus_mobile_native_aut.Harness.Main.{
  Cmd, all, list, run, MainError, setup, suite, main, names, after, ended,
}
use stylus_mobile_native_aut.Harness.Output.{Text}
use stylus_mobile_native_aut.Harness.Runner.{
  Test, RunError, tests_failed, test_error, unknown_test, run_all, run_one, verdict, Result-cases,
}
use stylus_mobile_native_aut.Harness.Runner.Outcomes.{
  Sequence, Stops, FirstNamed, NoneNamed, count_failed-Counted, find_test-FirstNamed,
}
use stylus_mobile_native_aut.Harness.Shell.{Tools, ShellError}
use stylus_mobile_native_aut.Harness.Shell.Commands.{Ctx, make_ctx}

-- The commands that run every test.
pub data RunsAll : Option Cmd → Type 0 where
  no_command : RunsAll none
  all_command : RunsAll (some all)

module _ (tools : Tools) (Error : Type 0) (tests : List (Test Ctx tools.Sys Error)) where
  -- What follows a setup that succeeds with this context, in this state.
  pub data Run (ctx : Ctx) (sys : tools.Sys)
      : Option Cmd → Result (MainError tools.Sys Error) (List Text) × tools.Sys → Type 0 where
    every_test_passes :
        {cmd : Option Cmd} {sys' : tools.Sys}
        → RunsAll cmd
        → Sequence Ctx tools.Sys Error ctx tests sys 0 sys'
        → Run ctx sys cmd (ok [], sys')
    some_tests_fail :
        {cmd : Option Cmd} {k : ℕ} {sys' : tools.Sys}
        → RunsAll cmd
        → 0 < k
        → Sequence Ctx tools.Sys Error ctx tests sys k sys'
        → Run ctx sys cmd (err (suite (tests_failed k)), sys')
    a_test_panics :
        {cmd : Option Cmd} {sys' : tools.Sys}
        → RunsAll cmd
        → Stops Ctx tools.Sys Error ctx tests sys sys'
        → Run ctx sys cmd (panic, sys')
    no_such_test :
        {name : Text}
        → NoneNamed Ctx tools.Sys Error name tests
        → Run ctx sys (some (run name)) (err (suite (unknown_test name)), sys)
    it_passes :
        {name : Text} {t : Test Ctx tools.Sys Error} {sys' : tools.Sys}
        → FirstNamed Ctx tools.Sys Error name tests t
        → t.run ctx sys ≡ (ok tt, sys')
        → Run ctx sys (some (run name)) (ok [], sys')
    it_fails :
        {name : Text} {t : Test Ctx tools.Sys Error} {sys' : tools.Sys} {e : Error}
        → FirstNamed Ctx tools.Sys Error name tests t
        → t.run ctx sys ≡ (err e, sys')
        → Run ctx sys (some (run name)) (err (suite (test_error e)), sys')
    it_panics :
        {name : Text} {t : Test Ctx tools.Sys Error} {sys' : tools.Sys}
        → FirstNamed Ctx tools.Sys Error name tests t
        → t.run ctx sys ≡ (panic, sys')
        → Run ctx sys (some (run name)) (panic, sys')

  pub data Outcome (sys : tools.Sys)
      : Option Cmd → Result (MainError tools.Sys Error) (List Text) × tools.Sys → Type 0 where
    listed : Outcome sys (some list) (ok (names tools tests tests), sys)
    setup_fails :
        {cmd : Option Cmd} {e : ShellError} {sys' : tools.Sys}
        → cmd ≢ some list
        → make_ctx tools sys ≡ (err e, sys')
        → Outcome sys cmd (err (setup e), sys')
    setup_panics :
        {cmd : Option Cmd} {sys' : tools.Sys}
        → cmd ≢ some list
        → make_ctx tools sys ≡ (panic, sys')
        → Outcome sys cmd (panic, sys')
    after_setup :
        {cmd : Option Cmd} {ctx : Ctx} {sys' : tools.Sys}
        {end : Result (MainError tools.Sys Error) (List Text) × tools.Sys}
        → make_ctx tools sys ≡ (ok ctx, sys')
        → Run ctx sys' cmd end
        → Outcome sys cmd end

  counted-Run :
      (ctx : Ctx) (sys sys' : tools.Sys) (cmd : Option Cmd) (k n : ℕ)
      → RunsAll cmd
      → n ≡ k
      → Sequence Ctx tools.Sys Error ctx tests sys k sys'
      → Run ctx sys cmd (ended tools tests (verdict Ctx tools.Sys Error (ok n)), sys')
  counted-Run ctx sys sys' cmd zero n every e steps = rw e (every_test_passes every steps)
  counted-Run ctx sys sys' cmd (suc k) n every e steps =
      rw (e, lt→ltb 0 (suc k) (omega arith)) (some_tests_fail every (omega arith) steps)

  -- `run_all`, as a command ends with it.
  run_all-Run :
      (ctx : Ctx) (sys : tools.Sys) (cmd : Option Cmd)
      → RunsAll cmd
      → let (r, sys') = run_all Ctx tools.Sys Error tests ctx sys in
        Run ctx sys cmd (ended tools tests r, sys')
  unfolding run_all
  run_all-Run ctx sys cmd every = elim (count_failed-Counted Ctx tools.Sys Error ctx tests 0 sys) [
    | inl (k, sys', steps, e) ↦
        rw (run_all, e) (counted-Run ctx sys sys' cmd k (k + 0) every (omega arith) steps)
    | inr (sys', stop, e) ↦ rw (run_all, e) (a_test_panics every stop)
  ]

  -- `run_one`, as a command ends with it.
  run_one-Run :
      (ctx : Ctx) (sys : tools.Sys) (name : Text)
      → let (r, sys') = run_one Ctx tools.Sys Error tests ctx name sys in
        Run ctx sys (some (run name)) (ended tools tests r, sys')
  unfolding run_one
  run_one-Run ctx sys name = elim (find_test-FirstNamed Ctx tools.Sys Error name tests) [
    | inl (none_named, e) ↦ rw (run_one, e) (no_such_test none_named)
    | inr (t, named, e) ↦
        let sys' = (t.run ctx sys).1 in
        elim (Result-cases (t.run ctx sys).0) [
          | inl (inl r) ↦ rw (run_one, e, r) (it_passes named (ap (λ x. (x, sys')) r))
          | inl (inr (x, r)) ↦ rw (run_one, e, r) (it_fails named (ap (λ x. (x, sys')) r))
          | inr r ↦ rw (run_one, e, r) (it_panics named (ap (λ x. (x, sys')) r))
        ]
  ]

  after-Outcome :
      (sys : tools.Sys) (cmd : Option Cmd) (p : Result ShellError Ctx × tools.Sys)
      (body : Ctx → tools.Sys → Result (RunError Ctx tools.Sys Error) (Unit {0}) × tools.Sys)
      → cmd ≢ some list
      → make_ctx tools sys ≡ p
      → ((ctx : Ctx) (sys' : tools.Sys)
          → let (r, end) = body ctx sys' in Run ctx sys' cmd (ended tools tests r, end))
      → Outcome sys cmd (after tools tests p body)
  after-Outcome sys cmd (ok ctx, sys') body other made runs = after_setup made (runs ctx sys')
  after-Outcome sys cmd (err e, sys') body other made runs = setup_fails other made
  after-Outcome sys cmd (panic, sys') body other made runs = setup_panics other made

  -- `main`, for any tools and any table of tests: `list` prints the names and starts nothing; any other
  -- command fails with the error of the setup, or panics, if the setup does. After the setup, no
  -- command and `all` run every test, each from where the one before it ended, succeed if none fails,
  -- fail with the number of those that do, and panic where a test panics; `run` fails if no test has
  -- the name, and otherwise ends as the first test of that name does, and runs no other.
  pub main-Outcome :
      (cmd : Option Cmd) (sys : tools.Sys) → Outcome sys cmd (main tools tests cmd sys)
  unfolding main
  main-Outcome none sys =
      after-Outcome sys none (make_ctx tools sys) _ (λ e. absurd (ground (arith, e))) refl
        (λ ctx sys'. run_all-Run ctx sys' none no_command)
  main-Outcome (some all) sys =
      after-Outcome sys (some all) (make_ctx tools sys) _ (λ e. absurd (ground (arith, e))) refl
        (λ ctx sys'. run_all-Run ctx sys' (some all) all_command)
  main-Outcome (some list) sys = listed
  main-Outcome (some (run name)) sys =
      after-Outcome sys (some (run name)) (make_ctx tools sys) _ (λ e. absurd (ground (arith, e)))
        refl (λ ctx sys'. run_one-Run ctx sys' name)
