-- ===== src/Harness/Session/Sim.antt =====
-- When a step of a session does what a step of a scenario does: both succeed, with results that belong
-- together, or both fail, in ways that belong
-- together, or both panic.
use stylus_mobile_native_aut.Base.{
  ℕ, ◌≡◌, arith, if◌then◌else◌, Bool, true, false, Option, none, some, Result, ok, err, panic,
}
use stylus_mobile_native_aut.Harness.Output.{Text}
use stylus_mobile_native_aut.Bytes.{Bytes}
use stylus_mobile_native_aut.Harness.Receipt.{ReceiptError}
use stylus_mobile_native_aut.Harness.Scenarios.{
  Failure, Step, ◌>>=◌, require, deploy_failed, send_failed, call_failed, bad_receipt, wrong_nonce,
  wrong_owner_x, wrong_owner_y, inner_succeeded, wrong_balance,
}
use stylus_mobile_native_aut.Harness.Session.{
  TestError, of_command, of_receipt, nonce_mismatch, owner_x_mismatch, owner_y_mismatch,
  inner_call_succeeded, balance_mismatch, Trial, follow, as_trial, ensure,
}
use stylus_mobile_native_aut.Harness.Session.World.{Ends}
use stylus_mobile_native_aut.Harness.Shell.{
  Command, Output, Tools, ShellError, decimal, run, next, not_started, command_failed,
}

-- The failures that belong together: a command that fails and the step that it makes, or the same check.
pub data SameFailure : TestError → Failure → Type 0 where
  same_deploy : {e : ShellError} → SameFailure (of_command e) deploy_failed
  same_send : {e : ShellError} → SameFailure (of_command e) send_failed
  same_call : {e : ShellError} → SameFailure (of_command e) call_failed
  same_receipt : {e : ReceiptError} → SameFailure (of_receipt e) (bad_receipt e)
  same_nonce : {got : Bytes} {n : ℕ} → SameFailure (nonce_mismatch got) (wrong_nonce n)
  same_owner_x : {got : Bytes} → SameFailure (owner_x_mismatch got) wrong_owner_x
  same_owner_y : {got : Bytes} → SameFailure (owner_y_mismatch got) wrong_owner_y
  same_success : SameFailure inner_call_succeeded inner_succeeded
  same_balance : {wei : ℕ} → SameFailure (balance_mismatch (decimal 78 wei)) (wrong_balance wei)

pub data Sim {Sys A B : Type 0} (P : A → Sys → B → Type 0)
    : Result TestError A × Sys → Step B → Type 0 where
  both_ok : {a : A} {sys : Sys} {b : B} → P a sys b → Sim P (ok a, sys) (ok b)
  both_err :
      {e : TestError} {sys : Sys} {f : Failure} → SameFailure e f → Sim P (err e, sys) (err f)
  both_panic : {sys : Sys} → Sim P (panic, sys) panic

-- Steps that follow one another.
pub Sim-follow :
    {Sys A B C D : Type 0} {P : A → Sys → B → Type 0} {Q : C → Sys → D → Type 0}
    {p : Result TestError A × Sys} {r : Step B} {g : A → Trial Sys C} {k : B → Step D}
    → Sim P p r
    → ((a : A) (sys : Sys) (b : B) → P a sys b → Sim Q (g a sys) (k b))
    → Sim Q (follow p g) (r >>= k)
Sim-follow (both_ok h) next = next _ _ _ h
Sim-follow (both_err h) next = both_err h
Sim-follow both_panic next = both_panic

-- What `run` makes of an output.
abbrev pub status : {Sys : Type 0} → Option Output × Sys → Result ShellError Text × Sys
status (none, sys) = (err not_started, sys)
status (some out, sys) =
    (if out.success then ok out.stdout else err (command_failed out.stdout), sys)

pub run-status :
    (tools : Tools) (cmd : Command) (sys : tools.Sys)
    → run tools cmd sys ≡ status (tools.output cmd sys)
unfolding run
run-status tools cmd sys = ground arith

module _ {Sys A B : Type 0} {P : Text → Sys → Type 0} {Q : A → Sys → B → Type 0} where
  -- A command whose output is read by `post`.
  pub command-Sim :
      (stops : Bool) (p : Option Output × Sys) (post : Text → Result ShellError A) (b : B)
      (f : Failure)
      → ((e : ShellError) → SameFailure (of_command e) f)
      → Ends stops P p
      → ((out : Text) (sys : Sys) → P out sys → (a : A) × (post out ≡ ok a) × Q a sys b)
      → Sim Q
          (as_trial (next (status p) (λ out sys. (post out, sys))))
          (if stops then err f else ok b)
  command-Sim false (some out, sys) post b f same (e, h) read =
      let (a, done, q) = read out.stdout sys h in rw (e, done) (both_ok q)
  command-Sim false (none, sys) post b f same h read = absurd h
  command-Sim true (some out, sys) post b f same e read = rw e (both_err (same _))
  command-Sim true (none, sys) post b f same e read = both_err (same _)

-- What is decided without a command.
pub ensure-Sim :
    {Sys : Type 0} {P : Unit {0} → Sys → Unit {0} → Type 0} (c : Bool) (e : TestError) (f : Failure)
    (sys : Sys)
    → SameFailure e f
    → P tt sys tt
    → Sim P (ensure c e sys) (require c f)
ensure-Sim true e f sys same h = both_ok h
ensure-Sim false e f sys same h = both_err same

-- What follows such a check.
pub ensure-follow :
    {Sys C D : Type 0} {Q : C → Sys → D → Type 0} (c : Bool) (e : TestError) (f : Failure)
    (sys : Sys) (g : Unit {0} → Trial Sys C) (k : Unit {0} → Step D)
    → SameFailure e f
    → Sim Q (g tt sys) (k tt)
    → Sim Q (follow (ensure c e sys) g) (require c f >>= k)
ensure-follow true e f sys g k same h = h
ensure-follow false e f sys g k same h = both_err same

-- A result that is used further without a command.
pub Sim-then :
    {Sys A B C : Type 0} {P : A → Sys → B → Type 0} {Q : C → Sys → B → Type 0}
    {p : Result TestError A × Sys} {r : Step B} {g : A → Trial Sys C}
    → Sim P p r
    → ((a : A) (sys : Sys) (b : B) → P a sys b → Sim Q (g a sys) (ok b))
    → Sim Q (follow p g) r
Sim-then (both_ok h) next = next _ _ _ h
Sim-then (both_err h) next = both_err h
Sim-then both_panic next = both_panic

module _ {Sys A : Type 0} {P : Text → Sys → Type 0} {Q : Text → Sys → A → Type 0} where
  -- A command whose output is the result, and a transaction that is followed by what cannot fail.
  pub output-Sim :
      {S : Type 0} (stops : Bool) (p : Option Output × Sys) (s : S) (k : S → A) (f : Failure)
      → ((e : ShellError) → SameFailure (of_command e) f)
      → Ends stops P p
      → ((out : Text) (sys : Sys) → P out sys → Q out sys (k s))
      → Sim Q (as_trial (status p)) ((if stops then err f else ok s) >>= (λ b. ok (k b)))
  output-Sim false (some out, sys) s k f same (e, h) read = rw e (both_ok (read out.stdout sys h))
  output-Sim false (none, sys) s k f same h read = absurd h
  output-Sim true (some out, sys) s k f same e read = rw e (both_err (same _))
  output-Sim true (none, sys) s k f same e read = both_err (same _)

-- How a test ends matters, not with what.
abbrev pub Ended : {Sys A B : Type 0} → A → Sys → B → Type 0
Ended a sys b = Unit

pub Sim-Ended :
    {Sys A B : Type 0} {P : A → Sys → B → Type 0} {p : Result TestError A × Sys} {r : Step B}
    → Sim P p r
    → Sim Ended p r
Sim-Ended (both_ok h) = both_ok tt
Sim-Ended (both_err h) = both_err h
Sim-Ended both_panic = both_panic
