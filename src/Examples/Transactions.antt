-- ===== src/Examples/Transactions.antt =====
-- Transactions at the concrete chain.
use stylus_mobile_native_aut.Base.{
  ℕ, ◌+◌, ◌%◌, ◌^◌, ◌<◌, ◌≡◌, refl, ap, Bool, [], ◌∷◌, ◌++◌, List, ok, ◌⊎◌, arith, true, false,
}
use stylus_mobile_native_aut.Bytes.{Bytes}
use stylus_mobile_native_aut.Errors.{P256AccountError, reentrancy, batch_call_failed}
use stylus_mobile_native_aut.Validators.{
  validate_constructor_args, validate_batch_shape, eip1271_magic,
}
use stylus_mobile_native_aut.Signature.Malleable.{Accepted}
use stylus_mobile_native_aut.Machine.{Machine, called, logged, executed, batch_executed}
use stylus_mobile_native_aut.Account.{constructor}
use stylus_mobile_native_aut.Account.Reports.{Reports}
use stylus_mobile_native_aut.Account.Execute.{opened}
use stylus_mobile_native_aut.Account.Batch.{sent, calls_of, AllReturn, FirstFailure}
use stylus_mobile_native_aut.Account.BatchCases.{batch_opened}
use stylus_mobile_native_aut.Chain.{
  Request, Reply, nothing, outcome, failed, bytes, serve, world, transact,
}
use stylus_mobile_native_aut.Chain.Guard.{world_latched, serve-reentrancy}
use stylus_mobile_native_aut.Chain.Transition.{Transition, consumed}
use stylus_mobile_native_aut.Chain.Refine.{transact-Transition}
use stylus_mobile_native_aut.Chain.Effect.{TakesEffect, transact_effect}
use stylus_mobile_native_aut.Chain.Invariant.{IsSound, fresh, constructor-IsSound, transact-IsSound}
use stylus_mobile_native_aut.Chain.History.{Transaction, run, spent, effects, nonce-run, no_replay}
use stylus_mobile_native_aut.Chain.Progress.{signed_execute, signed_rotation, signed_batch}
use stylus_mobile_native_aut.Chain.Answers.{Answer, serve-Answer}
use stylus_mobile_native_aut.Chain.Views.{challenge, is_valid_signature_answer}
use stylus_mobile_native_aut.Examples.{
  devnet, contracts, deployed, deployed-IsSound, signature, signature-Accepted, gx, gy,
  generator-usable,
}

abbrev call_data : Bytes
call_data = 1 ∷ 2 ∷ []

-- A call to the contract that calls back.
abbrev reentrant : Request
reentrant = Request.execute 0xbad 7 call_data 4 signature

-- A batch whose second call reverts.
abbrev targets : List ℕ
targets = 0xc0de ∷ 0xdead ∷ 0xbad ∷ []

abbrev values : List ℕ
values = 0 ∷ 1 ∷ 2 ∷ []

abbrev payloads : List Bytes
payloads = [] ∷ call_data ∷ (3 ∷ []) ∷ []

abbrev batch : Request
batch = Request.execute_batch targets values payloads 4 signature

-- The account in the middle of a call.
abbrev busy : Machine
busy = record deployed { account = record (deployed.account) { in_call = true } }

transact-Transition_example :
    Transition devnet contracts deployed reentrant
      (transact devnet contracts reentrant deployed).0
      (transact devnet contracts reentrant deployed).1
transact-Transition_example = transact-Transition devnet contracts deployed refl reentrant

transact_effect_example :
    ((transact devnet contracts batch deployed).1 ≡ deployed)
    ⊎ TakesEffect devnet deployed batch (transact devnet contracts batch deployed).1
transact_effect_example = transact_effect devnet contracts deployed refl batch

abbrev first_reply : Reply
first_reply = (transact devnet contracts reentrant deployed).0

reentrant-made : effects reentrant first_reply ≡ 1
reentrant-made =
    ap (effects reentrant)
      (signed_execute devnet contracts deployed refl 0xbad 7 call_data 4 signature
        (refl, signature-Accepted _)).3

abbrev others : List (Transaction devnet)
others =
    record { code = contracts; request = Request.rotate_owner gx gy 5 signature }
    ∷ record { code = contracts; request = batch }
    ∷ []

no_replay_example :
    let later = run devnet others (transact devnet contracts reentrant deployed).1 in
    (e : P256AccountError) × (transact devnet contracts reentrant later ≡ (failed e, later))
no_replay_example =
    no_replay devnet contracts contracts reentrant deployed others deployed-IsSound reentrant-made
      (omega arith)

nonce-run_example :
    (run devnet others deployed).account.nonce ≡ (4 + spent devnet others deployed) % 2 ^ 256
nonce-run_example = nonce-run devnet others deployed deployed-IsSound

world_latched_example : (world devnet contracts 0xbad 7 call_data busy).1 ≡ busy
world_latched_example = world_latched devnet contracts 0xbad 7 call_data busy refl

serve-reentrancy_example :
    serve devnet (world devnet contracts) reentrant busy ≡ (failed reentrancy, busy)
serve-reentrancy_example = serve-reentrancy devnet (world devnet contracts) reentrant busy tt refl

transact-IsSound_example : IsSound (transact devnet contracts batch deployed).1.account
transact-IsSound_example = transact-IsSound devnet contracts deployed deployed-IsSound batch

constructor-accepts : (constructor gx gy fresh) ≡ (ok tt, (constructor gx gy fresh).1)
unfolding constructor validate_constructor_args
constructor-accepts = rw generator-usable refl

constructor-IsSound_example :
    IsSound (constructor gx gy fresh).1.account
    × ((constructor gx gy fresh).1.account.owner_x ≡ gx)
    × ((constructor gx gy fresh).1.account.owner_y ≡ gy)
    × ((constructor gx gy fresh).1.account.nonce ≡ 0)
constructor-IsSound_example = constructor-IsSound gx gy constructor-accepts

serve-Answer_example :
    Answer devnet busy.account Request.nonce
      (serve devnet (world devnet contracts) Request.nonce busy).0
serve-Answer_example = serve-Answer devnet (world devnet contracts) busy Request.nonce (λ a. a)

signed_execute_example :
    let (reply, m') = transact devnet contracts reentrant deployed in
    (success : Bool) × (b : Bytes) × Reports
      (world devnet contracts 0xbad 7 call_data (opened 0xbad 7 call_data deployed)).0
      success
      b
    × (reply ≡ outcome success b)
    × (m'.account ≡ consumed deployed.account)
    × (m'.journal
        ≡ deployed.journal
          ++ (called 0xbad 7 call_data ∷ logged (executed 0xbad 7 4 success b) ∷ []))
signed_execute_example =
    signed_execute devnet contracts deployed refl 0xbad 7 call_data 4 signature
      (refl, signature-Accepted _)

signed_rotation_example :
    let (reply, m') = transact devnet contracts (Request.rotate_owner gx gy 4 signature) deployed in
    (reply ≡ nothing)
    × (m'.account.owner_x ≡ gx)
    × (m'.account.owner_y ≡ gy)
    × (m'.account.nonce ≡ (consumed deployed.account).nonce)
    × (m'.account.in_call ≡ false)
signed_rotation_example =
    signed_rotation devnet contracts deployed refl gx gy 4 signature (refl, signature-Accepted _)
      generator-usable

three_calls : validate_batch_shape 3 3 3 ≡ ok tt
unfolding validate_batch_shape
three_calls = refl

signed_batch_example :
    let (reply, m') = transact devnet contracts batch deployed in
    ((last : Machine) × AllReturn
        (world devnet contracts)
        4
        (batch_opened deployed)
        targets
        values
        payloads
        last
      × (sent last.journal ≡ sent deployed.journal ++ calls_of targets values payloads)
      × (reply ≡ nothing)
      × (m'.account ≡ consumed deployed.account)
      × (m'.journal ≡ last.journal ++ (logged (batch_executed 3 4) ∷ [])))
    ⊎ ((k : ℕ) × (b : Bytes) × (k < 3)
        × FirstFailure
            (world devnet contracts)
            4
            (batch_opened deployed)
            targets
            values
            payloads
            k
            b
        × (reply ≡ failed (batch_call_failed k b))
        × (m' ≡ deployed))
signed_batch_example =
    signed_batch devnet contracts deployed refl targets values payloads 4 signature three_calls
      (refl, signature-Accepted _)

is_valid_signature_answer_example :
    let out = world devnet contracts in
    (Accepted devnet (challenge devnet 99) signature gx gy
      × (serve devnet out (Request.is_valid_signature 99 signature) busy
          ≡ (bytes eip1271_magic, busy)))
    ⊎ ((¬ Accepted devnet (challenge devnet 99) signature gx gy)
        × (serve devnet out (Request.is_valid_signature 99 signature) busy
            ≡ (bytes (0 ∷ 0 ∷ 0 ∷ 0 ∷ []), busy)))
is_valid_signature_answer_example =
    is_valid_signature_answer devnet (world devnet contracts) 99 signature busy
