-- ===== src/Harness/Runner/Outcomes.antt =====
-- What a run of tests comes to, as relations: the tests one after another, and a test by its name.
use stylus_mobile_native_aut.Base.{
  ℕ, ◌+◌, ◌≡◌, ◌≢◌, refl, ap, ◌∙◌, ◌⊎◌, inl, inr, Bool-cases, List, [], ◌∷◌, none, some, Result, ok,
  err, panic, arith,
}
use stylus_mobile_native_aut.Bytes.{Bytes}
use stylus_mobile_native_aut.Receivers.{bytes_eq}
use stylus_mobile_native_aut.Receivers.Interfaces.{bytes_eq_iff}
use stylus_mobile_native_aut.Harness.Runner.{Test, RunError, count_failed, find_test, Result-cases}

module _ (Ctx Sys Error : Type 0) where
  -- The tests run from a state to a state, each from where the one before it ended, and this many fail.
  pub data Sequence (ctx : Ctx) : List (Test Ctx Sys Error) → Sys → ℕ → Sys → Type 0 where
    no_more : {sys : Sys} → Sequence ctx [] sys 0 sys
    passes :
        {t : Test Ctx Sys Error} {ts : List (Test Ctx Sys Error)} {sys sys' sys'' : Sys} {k : ℕ}
        → t.run ctx sys ≡ (ok tt, sys')
        → Sequence ctx ts sys' k sys''
        → Sequence ctx (t ∷ ts) sys k sys''
    fails :
        {t : Test Ctx Sys Error} {ts : List (Test Ctx Sys Error)} {sys sys' sys'' : Sys} {k : ℕ}
        {e : Error}
        → t.run ctx sys ≡ (err e, sys')
        → Sequence ctx ts sys' k sys''
        → Sequence ctx (t ∷ ts) sys (k + 1) sys''

  -- After some of the tests one panics, in this state.
  pub data Stops (ctx : Ctx) : List (Test Ctx Sys Error) → Sys → Sys → Type 0 where
    here :
        {t : Test Ctx Sys Error} {ts : List (Test Ctx Sys Error)} {sys sys' : Sys}
        → t.run ctx sys ≡ (panic, sys')
        → Stops ctx (t ∷ ts) sys sys'
    later :
        {t : Test Ctx Sys Error} {ts : List (Test Ctx Sys Error)} {sys sys' sys'' : Sys}
        {r : Result Error (Unit {0})}
        → t.run ctx sys ≡ (r, sys')
        → r ≢ panic
        → Stops ctx ts sys' sys''
        → Stops ctx (t ∷ ts) sys sys''

  -- The first test of this name.
  pub data FirstNamed (name : Bytes) : List (Test Ctx Sys Error) → Test Ctx Sys Error → Type 0 where
    first :
        {t : Test Ctx Sys Error} {ts : List (Test Ctx Sys Error)}
        → t.name ≡ name
        → FirstNamed name (t ∷ ts) t
    next :
        {s t : Test Ctx Sys Error} {ts : List (Test Ctx Sys Error)}
        → s.name ≢ name
        → FirstNamed name ts t
        → FirstNamed name (s ∷ ts) t

  -- No test has this name.
  abbrev pub NoneNamed : Bytes → List (Test Ctx Sys Error) → Type 0
  NoneNamed name [] = Unit {0}
  NoneNamed name (t ∷ ts) = (t.name ≢ name) × NoneNamed name ts

  -- What the loop of `run_all` comes to from a count.
  abbrev pub Counted :
      Ctx → List (Test Ctx Sys Error) → ℕ → Sys → Result (RunError Ctx Sys Error) ℕ × Sys → Type 0
  Counted ctx ts k sys end =
      ((n : ℕ) × (sys' : Sys) × Sequence ctx ts sys n sys' × (end ≡ (ok (n + k), sys')))
      ⊎ ((sys' : Sys) × Stops ctx ts sys sys' × (end ≡ (panic, sys')))

  after-passing :
      (ctx : Ctx) (t : Test Ctx Sys Error) (ts : List (Test Ctx Sys Error)) (k : ℕ) (sys sys' : Sys)
      (end : Result (RunError Ctx Sys Error) ℕ × Sys)
      → t.run ctx sys ≡ (ok tt, sys')
      → Counted ctx ts k sys' end
      → Counted ctx (t ∷ ts) k sys end
  after-passing ctx t ts k sys sys' end e (inl (n, s, rest, f)) = inl (n, s, passes e rest, f)
  after-passing ctx t ts k sys sys' end e (inr (s, stop, f)) =
      inr (s, later e (λ x. absurd (ground (arith, x))) stop, f)

  after-failing :
      (ctx : Ctx) (t : Test Ctx Sys Error) (ts : List (Test Ctx Sys Error)) (k : ℕ) (sys sys' : Sys)
      (x : Error) (end : Result (RunError Ctx Sys Error) ℕ × Sys)
      → t.run ctx sys ≡ (err x, sys')
      → Counted ctx ts (k + 1) sys' end
      → Counted ctx (t ∷ ts) k sys end
  after-failing ctx t ts k sys sys' x end e (inl (n, s, rest, f)) =
      inl (n + 1, s, fails e rest, f ∙ ap (λ m. (ok m, s)) (omega arith))
  after-failing ctx t ts k sys sys' x end e (inr (s, stop, f)) =
      inr (s, later e (λ x. absurd (ground (arith, x))) stop, f)

  pub count_failed-Counted :
      (ctx : Ctx) (ts : List (Test Ctx Sys Error)) (k : ℕ) (sys : Sys)
      → Counted ctx ts k sys (count_failed Ctx Sys Error ctx ts k sys)
  unfolding count_failed
  count_failed-Counted ctx [] k sys = inl (0, sys, no_more, ap (λ n. (ok n, sys)) (omega arith))
  count_failed-Counted ctx (t ∷ ts) k sys =
      let sys' = (t.run ctx sys).1 in
      elim (Result-cases (t.run ctx sys).0) [
        | inl (inl e) ↦
            rw (count_failed, e)
              (after-passing ctx t ts k sys sys' _ (ap (λ r. (r, sys')) e)
                (count_failed-Counted ctx ts k sys'))
        | inl (inr (x, e)) ↦
            rw (count_failed, e)
              (after-failing ctx t ts k sys sys' x _ (ap (λ r. (r, sys')) e)
                (count_failed-Counted ctx ts (k + 1) sys'))
        | inr e ↦ rw (count_failed, e) (inr (sys', here (ap (λ r. (r, sys')) e), refl))
      ]

  -- A search by name finds the first test of that name, if there is one.
  pub find_test-FirstNamed :
      (name : Bytes) (ts : List (Test Ctx Sys Error))
      → (NoneNamed name ts × (find_test Ctx Sys Error name ts ≡ none))
        ⊎ ((t : Test Ctx Sys Error) × FirstNamed name ts t
            × (find_test Ctx Sys Error name ts ≡ some t))
  unfolding find_test
  find_test-FirstNamed name [] = inl (tt, refl)
  find_test-FirstNamed name (s ∷ ts) =
      let same = bytes_eq_iff s.name name in
      elim (Bool-cases (bytes_eq s.name name)) [
        | inl e ↦ inr (s, first (same.0 e), rw (find_test, e) refl)
        | inr e ↦
            let other : s.name ≢ name = λ x. cc (same.1 x, e) in
            elim (find_test-FirstNamed name ts) [
              | inl (none_named, f) ↦ inl ((other, none_named), rw (find_test, e) f)
              | inr (t, named, f) ↦ inr (t, next other named, rw (find_test, e) f)
            ]
      ]
