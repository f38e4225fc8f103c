-- ===== src/Examples/Commands.antt =====
-- The harness's commands over tools that answer as on the development node.
use stylus_mobile_native_aut.Base.{
  ℕ, ◌-◌, ◌≡◌, refl, true, [], ◌∷◌, ◌++◌, Option, none, some, ok, length, if◌then◌else◌, arith,
}
use stylus_mobile_native_aut.Bytes.{Bytes, from_be_bytes}
use stylus_mobile_native_aut.Receivers.{bytes_eq}
use stylus_mobile_native_aut.Harness.{as_bytes, hex_nibble}
use stylus_mobile_native_aut.Harness.Output.{Text, parse_addr}
use stylus_mobile_native_aut.Harness.Receipt.{trim_start_0x}
use stylus_mobile_native_aut.Bytes.Valid.{append-AreBytes, to_be_bytes-AreBytes}
use stylus_mobile_native_aut.Chain.Invariant.{fresh}
use stylus_mobile_native_aut.Eip712.{word}
use stylus_mobile_native_aut.Harness.Digests.{keccak256}
use stylus_mobile_native_aut.Harness.Main.{main, run}
use stylus_mobile_native_aut.Harness.Main.Outcome.{Outcome, main-Outcome}
use stylus_mobile_native_aut.Harness.Main.Passing.{make_ctx-IsContext}
use stylus_mobile_native_aut.Harness.Scenarios
use stylus_mobile_native_aut.Harness.Session.{
  TestError, test_execute_happy_path, test_execute_reverting_target_consumes_nonce,
  test_execute_value_exceeds_balance, test_rotate_owner_changes_state,
  test_nonce_monotonicity_across_execute_and_rotate,
}
use stylus_mobile_native_aut.Harness.Session.Refine.{sessions_refine}
use stylus_mobile_native_aut.Harness.Session.Signed.{IsKey}
use stylus_mobile_native_aut.Harness.Session.Sim.{Sim, Ended}
use stylus_mobile_native_aut.Harness.Session.Table.{tests}
use stylus_mobile_native_aut.Harness.Session.World.{Setting}
use stylus_mobile_native_aut.Examples.Cast.{cast, cast_world, digits, wallet_text}
use stylus_mobile_native_aut.Examples.Cast.Laws.{context, cast-IsHex, cast-Speaks}
use stylus_mobile_native_aut.Examples.Hex
use stylus_mobile_native_aut.Harness.Shell.{Command, Output, read_u256, parse_u64, parse_digits}
use stylus_mobile_native_aut.Harness.Shell.Commands.{
  make_ctx, check_cargo_stylus_version, cast_chain_id, cast_dev_address, build_contract_wasm,
  version_command, chain_id_command, dev_address_command, build_command,
}
use stylus_mobile_native_aut.Harness.Shell.Reads.{byte_pairs, hex_value, read_u256-value}
use stylus_mobile_native_aut.Harness.Shell.Setup.{recording, make_ctx-commands}
use stylus_mobile_native_aut.Examples.{devnet, gx, gy, generator-usable}
use stylus_mobile_native_aut.Examples.Signing.{crate, toy_accepts}
use stylus_mobile_native_aut.P256.Values.{order}
use stylus_mobile_native_aut.Harness.Keys.{coordinates}
use stylus_mobile_native_aut.Harness.Main.Generated.{generated_passes}
use stylus_mobile_native_aut.Harness.Scenarios.Signing.{Signs, keypair_of}
use stylus_mobile_native_aut.Examples.Devnode.{Account, json, devnode, devnode-IsNode}
use stylus_mobile_native_aut.Examples.Scenarios.{first_key}

abbrev answers : Command → Option Output
answers cmd = elim cmd.args [
  | [] ↦ none
  | a ∷ rest ↦
      if bytes_eq a (as_bytes "chain-id")
      then some (record { success = true; stdout = as_bytes "412346" ++ (10 ∷ []) })
      else some (record { success = true; stdout = wallet_text ++ (10 ∷ []) })
]

abbrev decode : Text → Option Bytes
decode cs = some (byte_pairs cs)

set_up : (make_ctx (recording answers (λ b. []) decode true []) []).0 ≡ ok context
unfolding make_ctx check_cargo_stylus_version cast_chain_id cast_dev_address build_contract_wasm
    parse_addr parse_u64 parse_digits hex_nibble trim_start_0x
set_up = refl

make_ctx-commands_example :
    let made = make_ctx (recording answers (λ b. []) decode true []) [] in
    (made.1 ≡ version_command ∷ chain_id_command ∷ dev_address_command ∷ build_command ∷ [])
    × (parse_addr decode wallet_text ≡ ok (byte_pairs digits))
    × (length (byte_pairs digits) ≡ 20)
make_ctx-commands_example = make_ctx-commands answers (λ b. []) decode true [] [] context set_up

abbrev start : Account
start = devnode.deployed fresh

ready : (make_ctx cast start).0 ≡ ok context
unfolding make_ctx check_cargo_stylus_version cast_chain_id cast_dev_address build_contract_wasm
    parse_addr parse_u64 parse_digits hex_nibble trim_start_0x Hex.decode
ready = refl

first_key-IsKey : IsKey first_key
first_key-IsKey = record {
  small_x = omega arith;
  small_y = omega arith;
  signs = λ hash.
      append-AreBytes (word 0x96) (word 1) (to_be_bytes-AreBytes 32 0x96)
        (to_be_bytes-AreBytes 32 1);
}

abbrev setting : Setting
setting = record {
  tools = cast;
  hex = cast-IsHex;
  world = cast_world;
  ctx = context;
  context = make_ctx-IsContext cast cast-IsHex start context ready;
  keccak = devnet.keccak;
  speaks = cast-Speaks;
}

crate-Signs : (i n hash : ℕ) → Signs devnet crate tt gx gy hash
crate-Signs i n hash = record {
  r = 0x96;
  s = order - 1;
  signed = refl;
  r_range = (omega arith, omega arith);
  s_range = (omega arith, omega arith);
  accepts = toy_accepts hash (order - 1);
  mirrored = toy_accepts hash (order - (order - 1));
}

generated_passes_example :
    let generate = λ (n : ℕ). keypair_of crate tt gx gy in
    ((n : ℕ) → coordinates crate tt ≡ some (word gx, word gy))
    × ((main cast (tests cast (keccak256 devnet.keccak) json generate) none start).0 ≡ ok [])
generated_passes_example =
    generated_passes crate (λ r s. refl) (λ n. tt) (λ n. gx) (λ n. gy) (λ n. refl)
      (λ n. generator-usable) cast cast-IsHex cast_world devnet.keccak json (λ i. devnode-IsNode)
      crate-Signs none start context tt ready cast-Speaks

-- A name that no test has.
main-Outcome_example :
    let table = tests cast (keccak256 devnet.keccak) json (λ n. first_key) in
    let cmd = some (run (as_bytes "no_such_test")) in
    Outcome cast TestError table start cmd (main cast table cmd start)
main-Outcome_example =
    main-Outcome cast TestError (tests cast (keccak256 devnet.keccak) json (λ n. first_key))
      (some (run (as_bytes "no_such_test"))) start

sessions_refine_example :
    let digest = keccak256 devnet.keccak in
    let to = from_be_bytes context.dev_addr in
    Sim Ended
      (test_execute_happy_path cast digest first_key context start)
      (Scenarios.test_execute_happy_path devnode first_key to)
    × Sim Ended
        (test_execute_reverting_target_consumes_nonce cast digest json first_key context start)
        (Scenarios.test_execute_reverting_target_consumes_nonce json devnode first_key)
    × Sim Ended
        (test_execute_value_exceeds_balance cast digest json first_key context start)
        (Scenarios.test_execute_value_exceeds_balance json devnode first_key to)
    × Sim Ended
        (test_rotate_owner_changes_state cast digest first_key first_key context start)
        (Scenarios.test_rotate_owner_changes_state devnode first_key first_key)
    × Sim Ended
        (test_nonce_monotonicity_across_execute_and_rotate cast digest first_key first_key context
          start)
        (Scenarios.test_nonce_monotonicity_across_execute_and_rotate devnode first_key first_key to)
sessions_refine_example = sessions_refine setting start json (λ n. first_key) (λ n. first_key-IsKey)

-- A nonce of 5, as cast would print it without its leading zeros.
read_u256-value_example :
    (bytes : Bytes) × (read_u256 decode (as_bytes "0x05" ++ (10 ∷ [])) ≡ ok bytes)
    × (length bytes ≡ 32)
    × (from_be_bytes bytes ≡ hex_value 0 (as_bytes "05"))
read_u256-value_example =
    read_u256-value decode (λ cs k e h. refl) (as_bytes "0x05" ++ (10 ∷ [])) (as_bytes "05") refl
      refl (omega arith)
