-- ===== src/Harness/Main.antt =====
-- The command line of contracts/stylus/devnode-tests/src/main.rs. clap, which reads the arguments, is
-- left out.
pub mod Passing
pub mod Outcome
pub mod Generated
use stylus_mobile_native_aut.Base.{ℕ, List, [], ◌∷◌, Option, none, some, Result, ok, err, panic}
use stylus_mobile_native_aut.Bytes.{Bytes}
use stylus_mobile_native_aut.Harness.Output.{Text}
use stylus_mobile_native_aut.Harness.Runner.{Test, RunError, run_all, run_one}
use stylus_mobile_native_aut.Harness.Shell.{Tools, ShellError}
use stylus_mobile_native_aut.Harness.Shell.Commands.{Ctx, make_ctx}

pub data Cmd : Type 0 where
  all list : Cmd
  run : Text → Cmd

-- An error of the setup or of the tests.
pub data MainError (Sys Error : Type 0) : Type 0 where
  setup : ShellError → MainError Sys Error
  suite : RunError Ctx Sys Error → MainError Sys Error

module _ (tools : Tools) {Error : Type 0} (tests : List (Test Ctx tools.Sys Error)) where
  abbrev pub names : List (Test Ctx tools.Sys Error) → List Text
  names [] = []
  names (t ∷ ts) = t.name ∷ names ts

  -- What a run of tests ends with; it prints no names.
  abbrev pub ended :
      Result (RunError Ctx tools.Sys Error) (Unit {0})
      → Result (MainError tools.Sys Error) (List Text)
  ended (ok _) = ok []
  ended (err e) = err (suite e)
  ended panic = panic

  -- What follows `make_ctx()?`.
  abbrev pub after :
      Result ShellError Ctx × tools.Sys
      → (Ctx → tools.Sys → Result (RunError Ctx tools.Sys Error) (Unit {0}) × tools.Sys)
      → Result (MainError tools.Sys Error) (List Text) × tools.Sys
  after (ok ctx, sys) body = let (r, sys') = body ctx sys in (ended r, sys')
  after (err e, sys) body = (err (setup e), sys)
  after (panic, sys) body = (panic, sys)

  -- The names that `main` prints, or its error.
  unfoldable pub main :
      Option Cmd → tools.Sys → Result (MainError tools.Sys Error) (List Text) × tools.Sys
  unfolding run_all run_one
  main none sys = after (make_ctx tools sys) (run_all Ctx tools.Sys Error tests)
  main (some all) sys = after (make_ctx tools sys) (run_all Ctx tools.Sys Error tests)
  main (some list) sys = (ok (names tests), sys)
  main (some (run name)) sys =
      after (make_ctx tools sys) (λ ctx. run_one Ctx tools.Sys Error tests ctx name)
