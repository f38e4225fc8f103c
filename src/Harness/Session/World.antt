-- ===== src/Harness/Session/World.antt =====
-- What the sessions rely on: the tools speak for a chain on which every deployed account behaves as a
-- `Node`. A command that succeeds has done what the node does, and what it prints is what the node
-- answers; a transaction that reverts makes its command fail.
use stylus_mobile_native_aut.Base.{
  ℕ, ◌+◌, ◌<◌, ◌^◌, ◌≡◌, Bool, true, false, [], ◌∷◌, Option, none, some, Result, ok, err, panic,
  length, List,
}
use stylus_mobile_native_aut.Bytes.{Bytes, to_be_bytes, from_be_bytes}
use stylus_mobile_native_aut.Bytes.Valid.{AreBytes}
use stylus_mobile_native_aut.Eip712.{word}
use stylus_mobile_native_aut.Host.{Host}
use stylus_mobile_native_aut.Account.{constructor}
use stylus_mobile_native_aut.Chain.{Request, Reply}
use stylus_mobile_native_aut.Chain.Invariant.{fresh}
use stylus_mobile_native_aut.Harness.{as_bytes}
use stylus_mobile_native_aut.Harness.Node.{Node, is_reverted}
use stylus_mobile_native_aut.Harness.Output.{
  Text, all, trim, parse_addr, strip_ansi, utf8, extract_deployed_address,
}
use stylus_mobile_native_aut.Harness.Output.Address.{is_lower_hexdigit}
use stylus_mobile_native_aut.Harness.Scenarios.{reply_to}
use stylus_mobile_native_aut.Harness.Shell.{Output, Tools, parse_digits, decimal}
use stylus_mobile_native_aut.Harness.Shell.Commands.{
  Ctx, hex_text, deploy_command, value_command, call_command, balance_command, execute_command,
  rotate_command,
}

-- `hex::encode` writes two lower-case digits for a byte, and `hex::decode` reads them back.
pub record IsHex (tools : Tools) : Type 0 where
  pub decodes : (b : Bytes) → AreBytes b → tools.hex_decode (tools.hex_encode b) ≡ some b
  pub two_digits : (b : Bytes) → length (tools.hex_encode b) ≡ length b + length b
  pub lower_digits : (b : Bytes) → AreBytes b → all is_lower_hexdigit (tools.hex_encode b) ≡ true
  pub gives_bytes : (t : Text) (b : Bytes) → tools.hex_decode t ≡ some b → AreBytes b

-- The chain behind the tools: the accounts, numbered as they are deployed, each with its host and node,
-- the state of each, and the account that the next deployment makes.
pub record World (tools : Tools) : Type 1 where
  pub host : ℕ → Host
  pub node : (i : ℕ) → Node (host i)
  pub view : (i : ℕ) → tools.Sys → (node i).State
  pub next_account : tools.Sys → ℕ

-- What a command ends with: if it is to fail, it fails, or is not started; if not, it succeeds, and
-- its output and the state after it obey `P`.
abbrev pub Ends : {Sys : Type 0} → Bool → (Text → Sys → Type 0) → Option Output × Sys → Type 0
Ends false P (some out, sys) = (out.success ≡ true) × P out.stdout sys
Ends false P (none, sys) = ⊥
Ends true P (some out, sys) = out.success ≡ false
Ends true P (none, sys) = Unit

abbrev pub fails : {A : Type 0} {E : Type 0} → Result E A → Bool
fails (ok _) = false
fails (err _) = true
fails panic = true

-- The text is an address that `parse_addr` reads.
abbrev pub Names : Tools → Text → ℕ → Type 0
Names tools t a = (a < 2 ^ 160) × (parse_addr tools.hex_decode t ≡ ok (to_be_bytes 20 a))

-- The reads, by the signature in the command.
pub data Reads : Text → Request → Type 0 where
  reads_nonce : Reads (as_bytes "nonce()") Request.nonce
  reads_owner_x : Reads (as_bytes "ownerX()") Request.owner_x
  reads_owner_y : Reads (as_bytes "ownerY()") Request.owner_y

module _ (tools : Tools) (world : World tools) where
  abbrev pub address_of : ℕ → ℕ
  address_of i = (world.host i).contract_address

  -- What a transaction leaves: the account in the state after it, with the receipt as output if it
  -- was asked for.
  abbrev pub Sent : (i : ℕ) → Request → tools.Sys → List Text → Text → tools.Sys → Type 0
  Sent i q sys [] out sys' = world.view i sys' ≡ (world.node i).send q (world.view i sys)
  Sent i q sys (_ ∷ _) out sys' =
      (out ≡ (world.node i).receipt q (world.view i sys))
      × (world.view i sys' ≡ (world.node i).send q (world.view i sys))

pub data Options : List Text → Type 0 where
  plain : Options []
  with_receipt : Options (as_bytes "--json" ∷ [])

pub record Speaks (tools : Tools) (world : World tools) (ctx : Ctx) (keccak : Bytes → ℕ)
    : Type 0 where
  pub same_keccak : (i : ℕ) → (world.host i).keccak ≡ keccak
  pub same_chain : (i : ℕ) → (world.host i).chain_id ≡ ctx.chain_id
  -- A deployment makes the next account and prints its address so that the scanner finds it; it
  -- fails if the constructor does.
  pub deploys :
      (x y : ℕ) (sys : tools.Sys)
      → x < 2 ^ 256
      → y < 2 ^ 256
      → let (r, m) = constructor x y fresh in
        let i = world.next_account sys in
        Ends
          (fails r)
          (λ out sys'.
            (t : Text) × (extract_deployed_address (strip_ansi (utf8 out)) ctx.dev_addr_hex
              ≡ some t)
            × Names tools t (address_of tools world i)
            × (world.view i sys' ≡ (world.node i).deployed m))
          (tools.output (deploy_command tools (word x) (word y)) sys)
  pub funds :
      (i : ℕ) (sys : tools.Sys) (acct amount : Text) (wei : ℕ)
      → Names tools acct (address_of tools world i)
      → parse_digits 0 amount ≡ some wei
      → let s = world.view i sys in
        Ends
          (is_reverted (reply_to (world.node i) Request.receive s))
          (λ out sys'. world.view i sys' ≡ (world.node i).fund wei s)
          (tools.output (value_command acct amount) sys)
  pub executes :
      (i : ℕ) (sys : tools.Sys) (acct to_text : Text) (to value n : ℕ) (payload sig : Bytes)
      (options : List Text)
      → Options options
      → Names tools acct (address_of tools world i)
      → Names tools to_text to
      → value < 2 ^ 64
      → n < 2 ^ 64
      → AreBytes payload
      → AreBytes sig
      → let q = Request.execute to value payload n sig in
        Ends
          (is_reverted (reply_to (world.node i) q (world.view i sys)))
          (Sent tools world i q sys options)
          (tools.output (execute_command tools acct to_text value payload n sig options) sys)
  pub rotates :
      (i : ℕ) (sys : tools.Sys) (acct : Text) (x y n : ℕ) (sig : Bytes)
      → Names tools acct (address_of tools world i)
      → x < 2 ^ 256
      → y < 2 ^ 256
      → n < 2 ^ 64
      → AreBytes sig
      → let q = Request.rotate_owner x y n sig in
        Ends
          (is_reverted (reply_to (world.node i) q (world.view i sys)))
          (Sent tools world i q sys [])
          (tools.output (rotate_command tools acct (word x) (word y) n sig) sys)
  -- A read changes nothing and prints the word in hexadecimal.
  pub reads :
      (i : ℕ) (sys : tools.Sys) (acct signature : Text) (q : Request) (v : ℕ)
      → Names tools acct (address_of tools world i)
      → Reads signature q
      → reply_to (world.node i) q (world.view i sys) ≡ Reply.word v
      → Ends false
          (λ out sys'.
            (trim out ≡ hex_text tools (word v)) × (world.view i sys' ≡ world.view i sys))
          (tools.output (call_command acct signature) sys)
  -- The balance is printed in decimal.
  pub shows :
      (i : ℕ) (sys : tools.Sys) (acct : Text)
      → Names tools acct (address_of tools world i)
      → Ends false
          (λ out sys'.
            (trim out ≡ decimal 78 ((world.node i).balance (world.view i sys)))
            × (world.view i sys' ≡ world.view i sys))
          (tools.output (balance_command acct) sys)

-- The wallet is an address, and its text is parsed to it.
pub record IsContext (tools : Tools) (ctx : Ctx) : Type 0 where
  pub valid : AreBytes ctx.dev_addr
  pub size : length ctx.dev_addr ≡ 20
  pub parsed : parse_addr tools.hex_decode ctx.dev_addr_hex ≡ ok ctx.dev_addr

-- Tools with the chain that they speak for, in a context.
pub record Setting : Type 1 where
  pub tools : Tools
  pub hex : IsHex tools
  pub world : World tools
  pub ctx : Ctx
  pub context : IsContext tools ctx
  pub keccak : Bytes → ℕ
  pub speaks : Speaks tools world ctx keccak

-- The developer's wallet.
abbrev pub wallet : Ctx → ℕ
wallet ctx = from_be_bytes ctx.dev_addr
