-- ===== src/Harness/Runner.antt =====
-- The runner of contracts/stylus/devnode-tests/src/main.rs: `run_all` and `run_one` over a table of
-- named tests. A test's name is a text, its outcome an error or nothing.
pub mod Outcomes
use stylus_mobile_native_aut.Base.{
  ℕ, ◌+◌, ◌<◌, ◌≡◌, refl, ap, ◌∙◌, ◌⊎◌, inl, inr, List, [], ◌∷◌, Option, none, some, Result, ok,
  err, panic, ltb, ltb→lt, Bool-cases, ◌≢◌, if◌then◌else◌, length, arith,
}
use stylus_mobile_native_aut.Bytes.{Bytes}
use stylus_mobile_native_aut.Receivers.{bytes_eq}

pub Result-cases :
    {E : Type 0} (r : Result E (Unit {0})) → ((r ≡ ok tt) ⊎ ((e : E) × (r ≡ err e))) ⊎ (r ≡ panic)
Result-cases (ok _) = inl (inl refl)
Result-cases (err e) = inl (inr (e, refl))
Result-cases panic = inr refl

-- `Sys` is the state of the world outside, which the tests change.
module _ (Ctx Sys Error : Type 0) where
  -- `TestFn` with its name. A test that panics ends the run.
  pub record Test : Type 0 where
    pub name : Bytes
    pub run : Ctx → Sys → Result Error (Unit {0}) × Sys

  -- `bail!("{} test(s) failed", failed)`, the error of a test, or `unknown test`.
  pub data RunError : Type 0 where
    tests_failed : ℕ → RunError
    test_error : Error → RunError
    unknown_test : Bytes → RunError

  -- The loop of `run_all`: the number of tests that failed, and that many more.
  unfoldable pub count_failed : Ctx → List Test → ℕ → Sys → Result RunError ℕ × Sys
  count_failed ctx [] failed sys = (ok failed, sys)
  count_failed ctx (t ∷ ts) failed sys =
      let (r, sys') = t.run ctx sys in
      elim r [
        | ok _ ↦ count_failed ctx ts failed sys'
        | err e ↦ count_failed ctx ts (failed + 1) sys'
        | panic ↦ (panic, sys')
      ]

  -- What `run_all` makes of the count.
  abbrev pub verdict : Result RunError ℕ → Result RunError (Unit {0})
  verdict (ok failed) = if ltb 0 failed then err (tests_failed failed) else ok tt
  verdict (err e) = err e
  verdict panic = panic

  unfoldable pub run_all : List Test → Ctx → Sys → Result RunError (Unit {0}) × Sys
  unfolding count_failed
  run_all tests ctx sys =
      let (counted, sys') = count_failed ctx tests 0 sys in (verdict counted, sys')

  unfoldable pub find_test : Bytes → List Test → Option Test
  find_test name [] = none
  find_test name (t ∷ ts) =
      let rest = find_test name ts in if bytes_eq t.name name then some t else rest

  abbrev pub as_run : Result Error (Unit {0}) → Result RunError (Unit {0})
  as_run (ok _) = ok tt
  as_run (err e) = err (test_error e)
  as_run panic = panic

  unfoldable pub run_one : List Test → Ctx → Bytes → Sys → Result RunError (Unit {0}) × Sys
  unfolding find_test
  run_one tests ctx name sys = elim (find_test name tests) [
    | none ↦ (err (unknown_test name), sys)
    | some t ↦ let (r, sys') = t.run ctx sys in (as_run r, sys')
  ]

  -- No test panics.
  abbrev pub NoPanic : Ctx → List Test → Type 0
  NoPanic ctx [] = Unit {0}
  NoPanic ctx (t ∷ ts) = ((sys : Sys) → (t.run ctx sys).0 ≢ panic) × NoPanic ctx ts

  -- The tests that fail, each run after those before it.
  abbrev pub failing : Ctx → List Test → Sys → List Test
  failing ctx [] sys = []
  failing ctx (t ∷ ts) sys =
      let (r, sys') = t.run ctx sys in
      elim r [ err e ↦ t ∷ failing ctx ts sys' | _ ↦ failing ctx ts sys' ]

  count_failed-failing :
      (ctx : Ctx) (ts : List Test) (k : ℕ) (sys : Sys)
      → NoPanic ctx ts
      → (count_failed ctx ts k sys).0 ≡ ok (length (failing ctx ts sys) + k)
  unfolding count_failed
  count_failed-failing ctx [] k sys h = ap ok (omega arith)
  count_failed-failing ctx (t ∷ ts) k sys (h, hs) =
      let sys' = (t.run ctx sys).1 in
      elim (Result-cases (t.run ctx sys).0) [
        | inl (inl e) ↦ rw (count_failed, e) (count_failed-failing ctx ts k sys' hs)
        | inl (inr (e, r)) ↦
            rw (count_failed, r) (count_failed-failing ctx ts (k + 1) sys' hs ∙ ap ok (omega arith))
        | inr e ↦ absurd (h sys e)
      ]

  -- `run_all`, if no test panics, runs every test: it reports the number of failing tests, or succeeds
  -- if there is none.
  pub run_all_reports :
      (tests : List Test) (ctx : Ctx) (sys : Sys)
      → NoPanic ctx tests
      → ((length (failing ctx tests sys) ≡ 0) × ((run_all tests ctx sys).0 ≡ ok tt))
        ⊎ ((0 < length (failing ctx tests sys))
            × ((run_all tests ctx sys).0 ≡ err (tests_failed (length (failing ctx tests sys)))))
  unfolding run_all
  run_all_reports tests ctx sys h =
      let n = length (failing ctx tests sys) in
      let counted : (count_failed ctx tests 0 sys).0 ≡ ok n =
        count_failed-failing ctx tests 0 sys h ∙ ap ok (omega arith) in
      elim (Bool-cases (ltb 0 n)) [
        | inl some_failed ↦ inr (ltb→lt 0 n some_failed, ap verdict counted ∙ rw some_failed refl)
        | inr none_failed ↦
            inl (ground (arith, none_failed), ap verdict counted ∙ rw none_failed refl)
      ]

  -- Every test passes, whatever ran before it.
  abbrev pub AllPass : Ctx → List Test → Type 0
  AllPass ctx [] = Unit {0}
  AllPass ctx (t ∷ ts) = ((sys : Sys) → (t.run ctx sys).0 ≡ ok tt) × AllPass ctx ts

  count_failed-AllPass :
      (ctx : Ctx) (ts : List Test) (k : ℕ) (sys : Sys)
      → AllPass ctx ts
      → (count_failed ctx ts k sys).0 ≡ ok k
  unfolding count_failed
  count_failed-AllPass ctx [] k sys h = refl
  count_failed-AllPass ctx (t ∷ ts) k sys (h, hs) =
      rw (count_failed, h sys) (count_failed-AllPass ctx ts k (t.run ctx sys).1 hs)

  pub run_all-AllPass :
      (ctx : Ctx) (ts : List Test) (sys : Sys) → AllPass ctx ts → (run_all ts ctx sys).0 ≡ ok tt
  unfolding run_all
  run_all-AllPass ctx ts sys h = ap verdict (count_failed-AllPass ctx ts 0 sys h)

  found-AllPass :
      (ctx : Ctx) (ts : List Test) (name : Bytes) (t : Test) (sys : Sys)
      → AllPass ctx ts
      → find_test name ts ≡ some t
      → (t.run ctx sys).0 ≡ ok tt
  unfolding find_test
  found-AllPass ctx [] name t sys h e = absurd (ground (arith, e))
  found-AllPass ctx (s ∷ ts) name t sys (h, hs) e = elim (Bool-cases (bytes_eq s.name name)) [
    | inl here ↦ let same : s ≡ t = ground (arith, e, here) in rw (← same) (h sys)
    | inr later ↦ found-AllPass ctx ts name t sys hs (ground (arith, e, later))
  ]

  -- Every test that is found by its name passes.
  pub run_one-AllPass :
      (ctx : Ctx) (ts : List Test) (name : Bytes) (t : Test) (sys : Sys)
      → AllPass ctx ts
      → find_test name ts ≡ some t
      → (run_one ts ctx name sys).0 ≡ ok tt
  unfolding run_one
  run_one-AllPass ctx ts name t sys h e =
      let passes = found-AllPass ctx ts name t sys h e in rw (run_one, e) (ap as_run passes)
