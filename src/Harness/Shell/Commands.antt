-- ===== src/Harness/Shell/Commands.antt =====
-- The commands that the harness runs, with what it takes from their output, and its setup.
use Prim.Native.String.{String}
use stylus_mobile_native_aut.Base.{
  ℕ, Bool, false, ◌||◌, List, [], ◌∷◌, ◌++◌, none, some, ok, err, panic, if◌then◌else◌,
}
use stylus_mobile_native_aut.Bytes.{Bytes}
use stylus_mobile_native_aut.Harness.{as_bytes}
use stylus_mobile_native_aut.Harness.Output.{
  Text, parse_addr, strip_ansi, utf8, extract_deployed_address, trim, contains,
}
use stylus_mobile_native_aut.Harness.Shell.{
  Command, Tools, bad_chain_id, bad_address, wasm_missing, no_deployed_address, Session, pure, lift,
  ◌>>=◌, run, read_u256, to_string, parse_u64,
}

abbrev pub rpc : Text
rpc = as_bytes "http://localhost:8547"

abbrev pub dev_privkey : Text
dev_privkey = as_bytes "0xb6b15c8cb491557369f3c7d2c287b053eb229daa9c22138887752191c9520659"

-- `Ctx`
pub record Ctx : Type 0 where
  pub chain_id : ℕ
  pub dev_addr : Bytes
  pub dev_addr_hex : Text

abbrev pub tested_cargo_stylus_versions : List Text
tested_cargo_stylus_versions = as_bytes "0.6." ∷ []

abbrev pub any_in : List Text → Text → Bool
any_in [] text = false
any_in (p ∷ ps) text = contains text p || any_in ps text

abbrev pub command : String → List Text → Command
command program args = record { program = as_bytes program; args = args }

-- The options that end every command that cast sends.
abbrev pub sending : List Text
sending = as_bytes "--private-key" ∷ dev_privkey ∷ as_bytes "--rpc-url" ∷ rpc ∷ []

abbrev pub chain_id_command : Command
chain_id_command = command "cast" (as_bytes "chain-id" ∷ as_bytes "--rpc-url" ∷ rpc ∷ [])

abbrev pub dev_address_command : Command
dev_address_command = command "cast" (as_bytes "wallet" ∷ as_bytes "address" ∷ dev_privkey ∷ [])

abbrev pub version_command : Command
version_command = command "cargo" (as_bytes "stylus" ∷ as_bytes "--version" ∷ [])

abbrev pub build_command : Command
build_command = command "cargo" (
    as_bytes "build"
    ∷ as_bytes "--release"
    ∷ as_bytes "--target"
    ∷ as_bytes "wasm32-unknown-unknown"
    ∷ as_bytes "-p"
    ∷ as_bytes "p256-account"
    ∷ [])

abbrev pub value_command : Text → Text → Command
value_command to value_wei =
    command "cast" (as_bytes "send" ∷ to ∷ as_bytes "--value" ∷ value_wei ∷ sending)

abbrev pub call_command : Text → Text → Command
call_command acct sig =
    command "cast" (as_bytes "call" ∷ acct ∷ sig ∷ as_bytes "--rpc-url" ∷ rpc ∷ [])

abbrev pub balance_command : Text → Command
balance_command addr = command "cast" (as_bytes "balance" ∷ addr ∷ as_bytes "--rpc-url" ∷ rpc ∷ [])

module _ (tools : Tools) where
  -- `format!("0x{}", hex::encode(bytes))`
  abbrev pub hex_text : Bytes → Text
  hex_text bytes = as_bytes "0x" ++ tools.hex_encode bytes

  abbrev pub execute_command : Text → Text → ℕ → Bytes → ℕ → Bytes → List Text → Command
  execute_command acct to value payload nonce sig options = command "cast" (
      as_bytes "send"
      ∷ acct
      ∷ as_bytes "execute(address,uint256,bytes,uint256,bytes)"
      ∷ to
      ∷ to_string value
      ∷ hex_text payload
      ∷ to_string nonce
      ∷ hex_text sig
      ∷ (sending ++ options))

  abbrev pub rotate_command : Text → Bytes → Bytes → ℕ → Bytes → Command
  rotate_command acct new_x new_y nonce sig = command "cast" (
      as_bytes "send"
      ∷ acct
      ∷ as_bytes "rotateOwner(uint256,uint256,uint256,bytes)"
      ∷ hex_text new_x
      ∷ hex_text new_y
      ∷ to_string nonce
      ∷ hex_text sig
      ∷ sending)

  abbrev pub deploy_command : Bytes → Bytes → Command
  deploy_command x y = command "cargo" (
      as_bytes "stylus"
      ∷ as_bytes "deploy"
      ∷ as_bytes "--no-verify"
      ∷ as_bytes "--endpoint"
      ∷ rpc
      ∷ as_bytes "--private-key"
      ∷ dev_privkey
      ∷ as_bytes "--wasm-file"
      ∷ tools.wasm_path
      ∷ as_bytes "--constructor-signature"
      ∷ as_bytes "constructor(uint256,uint256)"
      ∷ as_bytes "--constructor-args"
      ∷ hex_text x
      ∷ hex_text y
      ∷ [])

  unfoldable pub cast_chain_id : Session tools.Sys ℕ
  unfolding run parse_u64
  cast_chain_id = do
    out ← run tools chain_id_command
    lift (elim (parse_u64 (trim out)) [ none ↦ err bad_chain_id | some n ↦ ok n ])

  unfoldable pub cast_dev_address : Session tools.Sys Text
  unfolding run
  cast_dev_address = do out ← run tools dev_address_command; pure (trim out)

  unfoldable pub cast_send_value : Text → Text → Session tools.Sys (Unit {0})
  unfolding run
  cast_send_value to value_wei = do out ← run tools (value_command to value_wei); pure tt

  unfoldable pub cast_call_u256 : Text → Text → Session tools.Sys Bytes
  unfolding run read_u256
  cast_call_u256 acct sig = do
    out ← run tools (call_command acct sig)
    lift (read_u256 tools.hex_decode out)

  unfoldable pub cast_call_balance : Text → Session tools.Sys Text
  unfolding run
  cast_call_balance addr = do out ← run tools (balance_command addr); pure (trim out)

  unfoldable pub cast_send_execute_with_receipt :
      Text → Text → ℕ → Bytes → ℕ → Bytes → Session tools.Sys Text
  unfolding run
  cast_send_execute_with_receipt acct to value payload nonce sig =
      run tools (execute_command acct to value payload nonce sig (as_bytes "--json" ∷ []))

  unfoldable pub cast_send_execute :
      Text → Text → ℕ → Bytes → ℕ → Bytes → Session tools.Sys (Unit {0})
  unfolding run
  cast_send_execute acct to value payload nonce sig = do
    out ← run tools (execute_command acct to value payload nonce sig [])
    pure tt

  unfoldable pub cast_send_rotate : Text → Bytes → Bytes → ℕ → Bytes → Session tools.Sys (Unit {0})
  unfolding run
  cast_send_rotate acct new_x new_y nonce sig = do
    out ← run tools (rotate_command acct new_x new_y nonce sig)
    pure tt

  -- True if the version is one that the parser was tested against; otherwise a warning is printed.
  unfoldable pub check_cargo_stylus_version : Session tools.Sys Bool
  check_cargo_stylus_version sys =
      let (o, sys') = tools.output version_command sys in
      elim o [
        | none ↦ (ok false, sys')
        | some out ↦ (ok (any_in tested_cargo_stylus_versions (trim out.stdout)), sys')
      ]

  unfoldable pub build_contract_wasm : Session tools.Sys (Unit {0})
  unfolding run
  build_contract_wasm = do
    out ← run tools build_command
    λ sys. (if tools.exists tools.wasm_path sys then ok tt else err wasm_missing, sys)

  unfoldable pub cargo_stylus_deploy : Bytes → Bytes → Text → Session tools.Sys Text
  unfolding run
  cargo_stylus_deploy x y dev_addr = do
    out ← run tools (deploy_command x y)
    lift (elim (extract_deployed_address (strip_ansi (utf8 out)) dev_addr) [
      | none ↦ err no_deployed_address
      | some address ↦ ok address
    ])

  unfoldable pub make_ctx : Session tools.Sys Ctx
  unfolding check_cargo_stylus_version cast_chain_id cast_dev_address build_contract_wasm
  make_ctx = do
    tested ← check_cargo_stylus_version
    chain_id ← cast_chain_id
    dev_addr_hex ← cast_dev_address
    dev_addr ← lift (elim (parse_addr tools.hex_decode dev_addr_hex) [
      | ok bytes ↦ ok bytes
      | err e ↦ err (bad_address e)
      | panic ↦ panic
    ])
    built ← build_contract_wasm
    pure (record { chain_id = chain_id; dev_addr = dev_addr; dev_addr_hex = dev_addr_hex })
