-- ===== src/Chain/History.antt =====
-- Sequences of transactions, each against whatever code the chain then holds: how the nonce moves,
-- and why no signed request takes effect twice.
use stylus_mobile_native_aut.Base.{
  ℕ, ◌+◌, ◌%◌, ◌^◌, ◌≤◌, ◌<◌, ◌≡◌, refl, sym, ◌∙◌, List, [], ◌∷◌, length, arith,
}
use stylus_mobile_native_aut.Host.{Host}
use stylus_mobile_native_aut.Errors.{P256AccountError}
use stylus_mobile_native_aut.Machine.{P256Account, Machine}
use stylus_mobile_native_aut.Chain.{Request, Reply, nothing, outcome, failed, Code, transact}
use stylus_mobile_native_aut.Chain.Guard.{IsAuthorising}
use stylus_mobile_native_aut.Chain.Transition.{
  Transition, call_made, batch_made, rotated, batch_undone, call_refused, shape_refused,
  batch_refused, rotation_refused, answered,
}
use stylus_mobile_native_aut.Chain.Refine.{transact-Transition}
use stylus_mobile_native_aut.Chain.Effect.{Signed}
use stylus_mobile_native_aut.Chain.Invariant.{IsSound, transact-IsSound}

-- 1 for an authorising request that was not refused.
abbrev pub effects : Request → Reply → ℕ
effects (Request.execute to value payload n sig) (outcome success b) = 1
effects (Request.execute_batch to value payloads n sig) nothing = 1
effects (Request.rotate_owner new_x new_y n sig) nothing = 1
effects _ _ = 0

pub effects-le : (q : Request) (r : Reply) → effects q r ≤ 1
effects-le q r = ground arith

effects-none : (q : Request) (r : Reply) → ¬ IsAuthorising q → effects q r ≡ 0
effects-none (Request.execute to value payload n sig) r a = absurd (a tt)
effects-none (Request.execute_batch to value payloads n sig) r a = absurd (a tt)
effects-none (Request.rotate_owner new_x new_y n sig) r a = absurd (a tt)
effects-none _ r a = refl

pub record Transaction (host : Host) : Type 0 where
  pub code : Code host
  pub request : Request

module _ (host : Host) where
  -- The machine after a sequence of transactions.
  unfoldable pub run : List (Transaction host) → Machine → Machine
  run [] m = m
  run (t ∷ ts) m = run ts (transact host t.code t.request m).1

  -- How many of them took effect.
  unfoldable pub spent : List (Transaction host) → Machine → ℕ
  spent [] m = 0
  spent (t ∷ ts) m =
      let (r, m') = transact host t.code t.request m in effects t.request r + spent ts m'

  pub run-IsSound :
      (ts : List (Transaction host)) (m : Machine) → IsSound m.account → IsSound (run ts m).account
  unfolding run
  run-IsSound [] m s = s
  run-IsSound (t ∷ ts) m s =
      run-IsSound ts (transact host t.code t.request m).1
        (transact-IsSound host t.code m s t.request)

  spent-le : (ts : List (Transaction host)) (m : Machine) → spent ts m ≤ length ts
  unfolding spent
  spent-le [] m = omega arith
  spent-le (t ∷ ts) m =
      let s = transact host t.code t.request m in
      omega (arith, spent-le ts s.1, effects-le t.request s.0)

  module _ (code : Code host) (m : Machine) (sound : IsSound m.account) where
    Transition-nonce :
        {q : Request} {r : Reply} {m' : Machine}
        → Transition host code m q r m'
        → m'.account.nonce ≡ (m.account.nonce + effects q r) % 2 ^ 256
    Transition-nonce (call_made _ _ _ _) = refl
    Transition-nonce (batch_made _ _ _ _ _) = refl
    Transition-nonce (rotated _ _) = refl
    Transition-nonce (batch_undone _ _ _ _ _ _) = omega arith
    Transition-nonce (call_refused _) = omega arith
    Transition-nonce (shape_refused _) = omega arith
    Transition-nonce (batch_refused _ _) = omega arith
    Transition-nonce (rotation_refused _) = omega arith
    Transition-nonce (answered {q = q} {r = r} a _) = omega (arith, effects-none q r a)

  same_nonce :
      (q : Request) (a b : P256Account) → Signed host a q → Signed host b q → a.nonce ≡ b.nonce
  same_nonce (Request.execute to value payload n sig) a b s t = sym s.0 ∙ t.0
  same_nonce (Request.execute_batch to value payloads n sig) a b s t = sym s.0 ∙ t.0
  same_nonce (Request.rotate_owner new_x new_y n sig) a b s t = sym s.0 ∙ t.0
  same_nonce _ a b s t = absurd s

  Signed-IsAuthorising : (q : Request) (a : P256Account) → Signed host a q → IsAuthorising q
  Signed-IsAuthorising (Request.execute to value payload n sig) a s = tt
  Signed-IsAuthorising (Request.execute_batch to value payloads n sig) a s = tt
  Signed-IsAuthorising (Request.rotate_owner new_x new_y n sig) a s = tt
  Signed-IsAuthorising _ a s = absurd s

  -- An effect needs the signature of the stored owner.
  effects-Signed :
      {code : Code host} {m : Machine} {q : Request} {r : Reply} {m' : Machine}
      → Transition host code m q r m'
      → effects q r ≡ 1
      → Signed host m.account q
  effects-Signed (call_made signed _ _ _) e = signed
  effects-Signed (batch_made _ signed _ _ _) e = signed
  effects-Signed (rotated signed _) e = signed
  effects-Signed (batch_undone _ _ _ _ _ _) e = absurd (omega arith)
  effects-Signed (call_refused _) e = absurd (omega arith)
  effects-Signed (shape_refused _) e = absurd (omega arith)
  effects-Signed (batch_refused _ _) e = absurd (omega arith)
  effects-Signed (rotation_refused _) e = absurd (omega arith)
  effects-Signed (answered {q = q} {r = r} a _) e = absurd (omega (arith, effects-none q r a))

  -- What was not signed for the stored nonce fails and changes nothing.
  unsigned-failed :
      {code : Code host} {m : Machine} {q : Request} {r : Reply} {m' : Machine}
      → Transition host code m q r m'
      → IsAuthorising q
      → ¬ Signed host m.account q
      → (e : P256AccountError) × (r ≡ failed e) × (m' ≡ m)
  unsigned-failed (call_made signed _ _ _) i u = absurd (u signed)
  unsigned-failed (batch_made _ signed _ _ _) i u = absurd (u signed)
  unsigned-failed (rotated signed _) i u = absurd (u signed)
  unsigned-failed (batch_undone _ _ _ _ _ _) i u = (_, refl, refl)
  unsigned-failed (call_refused _) i u = (_, refl, refl)
  unsigned-failed (shape_refused _) i u = (_, refl, refl)
  unsigned-failed (batch_refused _ _) i u = (_, refl, refl)
  unsigned-failed (rotation_refused _) i u = (_, refl, refl)
  unsigned-failed (answered a _) i u = absurd (a i)

  -- After any sequence of transactions to a sound account, each against whatever code, the nonce has
  -- moved by the number of those that took effect, modulo 2^256.
  pub nonce-run :
      (ts : List (Transaction host)) (m : Machine)
      → IsSound m.account
      → (run ts m).account.nonce ≡ (m.account.nonce + spent ts m) % 2 ^ 256
  unfolding run spent
  nonce-run [] m s = omega (arith, s.nonce_word)
  nonce-run (t ∷ ts) m s =
      let (r, m') = transact host t.code t.request m in
      omega (
        arith,
        nonce-run ts m' (transact-IsSound host t.code m s t.request),
        Transition-nonce t.code m s (transact-Transition host t.code m s.guard_free t.request),
      )

  -- No replay: a request that took effect once at a sound account, submitted again after any other
  -- transactions (fewer than 2^256 − 1 of them), fails and changes nothing, whatever code the chain
  -- then holds.
  pub no_replay :
      (code code' : Code host) (q : Request) (m : Machine) (ts : List (Transaction host))
      → IsSound m.account
      → effects q (transact host code q m).0 ≡ 1
      → length ts + 1 < 2 ^ 256
      → let later = run ts (transact host code q m).1 in
        (e : P256AccountError) × (transact host code' q later ≡ (failed e, later))
  no_replay code code' q m ts sound effect few =
      let first = transact-Transition host code m sound.guard_free q in
      let m1 = (transact host code q m).1 in
      let s1 = transact-IsSound host code m sound q in
      let later = run ts m1 in
      let signed = effects-Signed first effect in
      let stale : ¬ Signed host later.account q = λ again. omega (
        arith,
        same_nonce q m.account later.account signed again,
        Transition-nonce code m sound first,
        effect,
        nonce-run ts m1 s1,
        spent-le ts m1,
      ) in
      let (e, reply, same) =
        unsigned-failed (transact-Transition host code' later (run-IsSound ts m1 s1).guard_free q)
          (Signed-IsAuthorising q m.account signed) stale in
      (e, λ i. (reply i, same i))
