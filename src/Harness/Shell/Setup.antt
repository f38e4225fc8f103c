-- ===== src/Harness/Shell/Setup.antt =====
-- What `make_ctx` does, over tools that record the commands they are given.
use stylus_mobile_native_aut.Base.{
  ◌≡◌, refl, Bool, List, [], ◌∷◌, ◌++◌, append_assoc, Result, Option, ok, err, panic, length, ap,
  sym, ◌∙◌, arith,
}
use stylus_mobile_native_aut.Bytes.{Bytes}
use stylus_mobile_native_aut.Harness.Output.{Text, parse_addr}
use stylus_mobile_native_aut.Harness.Shell.{
  Command, Output, Tools, ShellError, bad_address, Session, next, run,
}
use stylus_mobile_native_aut.Harness.Shell.Commands.{
  Ctx, version_command, chain_id_command, dev_address_command, build_command,
  check_cargo_stylus_version, cast_chain_id, cast_dev_address, build_contract_wasm, make_ctx,
}

-- Tools that answer a command always alike, and whose state is the commands so far.
abbrev pub recording :
    (Command → Option Output) → (Bytes → Text) → (Text → Option Bytes) → Bool → Text → Tools
recording answers encode decode built path = record {
  Sys = List Command;
  output = λ cmd log. (answers cmd, log ++ (cmd ∷ []));
  hex_encode = encode;
  hex_decode = decode;
  exists = λ p log. built;
  wasm_path = path;
}

-- A sequence that succeeds has two parts that succeed.
next-ok :
    {Sys A B : Type 0} (p : Result ShellError A × Sys) (g : A → Session Sys B) (b : B)
    → (next p g).0 ≡ ok b
    → (a : A) × (p.0 ≡ ok a) × ((g a p.1).0 ≡ ok b) × ((next p g).1 ≡ (g a p.1).1)
next-ok (ok a, sys) g b h = (a, refl, h, refl)
next-ok (err e, sys) g b h = absurd (ground (arith, h))
next-ok (panic, sys) g b h = absurd (ground (arith, h))

-- The address that the setup parses.
abbrev address_of : (Text → Option Bytes) → Text → Result ShellError Bytes
address_of decode text = elim (parse_addr decode text) [
  | ok bytes ↦ ok bytes
  | err e ↦ err (bad_address e)
  | panic ↦ panic
]

address_read :
    (decode : Text → Option Bytes) (text : Text) (bytes : Bytes)
    → address_of decode text ≡ ok bytes
    → (parse_addr decode text ≡ ok bytes) × (length bytes ≡ 20)
unfolding parse_addr
address_read decode text bytes h = ground (arith, h)

abbrev hex_in : Result ShellError Ctx → Text
hex_in (ok c) = c.dev_addr_hex
hex_in r = []

abbrev bytes_in : Result ShellError Ctx → Bytes
bytes_in (ok c) = c.dev_addr
bytes_in r = []

-- What a setup that succeeds has parsed.
pub make_ctx-parsed :
    (tools : Tools) (sys : tools.Sys) (ctx : Ctx)
    → (make_ctx tools sys).0 ≡ ok ctx
    → (parse_addr tools.hex_decode ctx.dev_addr_hex ≡ ok ctx.dev_addr) × (length ctx.dev_addr ≡ 20)
unfolding make_ctx
make_ctx-parsed tools sys ctx h =
    let (tested, e1, h1, s1) = next-ok (check_cargo_stylus_version tools sys) _ ctx h in
    let (chain, e2, h2, s2) = next-ok (cast_chain_id tools _) _ ctx h1 in
    let (text, e3, h3, s3) = next-ok (cast_dev_address tools _) _ ctx h2 in
    let (bytes, e4, h4, s4) = next-ok (address_of tools.hex_decode text, _) _ ctx h3 in
    let (built, e5, h5, s5) = next-ok (build_contract_wasm tools _) _ ctx h4 in
    let same_hex : text ≡ ctx.dev_addr_hex = ap hex_in h5 in
    let same_bytes : bytes ≡ ctx.dev_addr = ap bytes_in h5 in
    let parsed = address_read tools.hex_decode text bytes e4 in
    (
      sym (ap (parse_addr tools.hex_decode) same_hex) ∙ (parsed.0 ∙ ap ok same_bytes),
      sym (ap length same_bytes) ∙ parsed.1,
    )

one_more :
    (log xs : List Command) {l l' : List Command} (c : Command)
    → l ≡ log ++ xs
    → l' ≡ l ++ (c ∷ [])
    → l' ≡ log ++ (xs ++ (c ∷ []))
one_more log xs c e f = f ∙ (ap (λ k. k ++ (c ∷ [])) e ∙ append_assoc log xs (c ∷ []))

module _ (answers : Command → Option Output) (encode : Bytes → Text) (decode : Text → Option Bytes)
    (built : Bool) (path : Text) where
  abbrev tools : Tools
  tools = recording answers encode decode built path

  version_log :
      (log : List Command)
      → (check_cargo_stylus_version tools log).1 ≡ log ++ (version_command ∷ [])
  unfolding check_cargo_stylus_version
  version_log log = ground arith

  run_log : (cmd : Command) (log : List Command) → (run tools cmd log).1 ≡ log ++ (cmd ∷ [])
  unfolding run
  run_log cmd log = ground arith

  chain_id_log : (log : List Command) → (cast_chain_id tools log).1 ≡ log ++ (chain_id_command ∷ [])
  unfolding cast_chain_id run
  chain_id_log log = ground arith

  dev_address_log :
      (log : List Command) → (cast_dev_address tools log).1 ≡ log ++ (dev_address_command ∷ [])
  unfolding cast_dev_address run
  dev_address_log log = ground arith

  build_log : (log : List Command) → (build_contract_wasm tools log).1 ≡ log ++ (build_command ∷ [])
  unfolding build_contract_wasm run
  build_log log = ground arith

  -- A setup that succeeds has run, in this order, the version check, the query of the chain id, the
  -- query of the wallet's address and the build, each once and nothing else; and the address in the
  -- context is the 20 bytes that its text spells.
  pub make_ctx-commands :
      (log : List Command) (ctx : Ctx)
      → (make_ctx tools log).0 ≡ ok ctx
      → ((make_ctx tools log).1
          ≡ log ++ (version_command ∷ chain_id_command ∷ dev_address_command ∷ build_command ∷ []))
        × (parse_addr decode ctx.dev_addr_hex ≡ ok ctx.dev_addr)
        × (length ctx.dev_addr ≡ 20)
  unfolding make_ctx
  make_ctx-commands log ctx h =
      let l1 = (check_cargo_stylus_version tools log).1 in
      let l2 = (cast_chain_id tools l1).1 in
      let l3 = (cast_dev_address tools l2).1 in
      let (tested, e1, h1, s1) = next-ok (check_cargo_stylus_version tools log) _ ctx h in
      let (chain, e2, h2, s2) = next-ok (cast_chain_id tools l1) _ ctx h1 in
      let (text, e3, h3, s3) = next-ok (cast_dev_address tools l2) _ ctx h2 in
      let (bytes, e4, h4, s4) = next-ok (address_of decode text, l3) _ ctx h3 in
      let (made, e5, h5, s5) = next-ok (build_contract_wasm tools l3) _ ctx h4 in
      let parsed = make_ctx-parsed tools log ctx h in
      let one = version_log log in
      let two = one_more log (version_command ∷ []) chain_id_command one (chain_id_log l1) in
      let three =
        one_more log (version_command ∷ chain_id_command ∷ []) dev_address_command two
          (dev_address_log l2) in
      let all =
        one_more log (version_command ∷ chain_id_command ∷ dev_address_command ∷ []) build_command
          three (build_log l3) in
      (s1 ∙ (s2 ∙ (s3 ∙ (s4 ∙ (s5 ∙ all)))), parsed.0, parsed.1)
