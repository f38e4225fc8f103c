-- ===== src/Harness/Session/Replies.antt =====
-- The commands of a session against the steps of a scenario, on a chain that the tools speak for.
use stylus_mobile_native_aut.Base.{
  ℕ, eq→==, ◌<◌, ◌^◌, ◌≡◌, refl, false, [], ◌∷◌, some, Result, ok, err, panic, length,
  if◌then◌else◌, arith,
}
use stylus_mobile_native_aut.Bytes.{Bytes, to_be_bytes}
use stylus_mobile_native_aut.Bytes.RoundTrip.{length-to_be_bytes}
use stylus_mobile_native_aut.Bytes.Valid.{AreBytes, to_be_bytes-AreBytes}
use stylus_mobile_native_aut.Harness.Output.Parse.{parse_addr_digits}
use stylus_mobile_native_aut.Eip712.{word}
use stylus_mobile_native_aut.Account.{constructor}
use stylus_mobile_native_aut.Chain.{Request, Reply}
use stylus_mobile_native_aut.Chain.Invariant.{fresh}
use stylus_mobile_native_aut.Harness.{as_bytes}
use stylus_mobile_native_aut.Harness.Node.{Node, is_reverted}
use stylus_mobile_native_aut.Harness.Output.{Text, trim, parse_addr}
use stylus_mobile_native_aut.Harness.Shell.{read_u256, padded, parse_digits, decimal}
use stylus_mobile_native_aut.Harness.Shell.Commands
use stylus_mobile_native_aut.Harness.Shell.Commands.{
  Ctx, hex_text, value_command, call_command, balance_command, execute_command, rotate_command,
  deploy_command,
}
use stylus_mobile_native_aut.Harness.Scenarios
use stylus_mobile_native_aut.Harness.Scenarios.{
  Failure, Step, Keypair, reply_to, deploy_failed, require,
}
use stylus_mobile_native_aut.Harness.Session.{as_trial, deploy_fresh}
use stylus_mobile_native_aut.Harness.Session.Sim.{
  Sim, both_ok, Sim-then, run-status, command-Sim, output-Sim, same_send, same_call, same_deploy,
}
use stylus_mobile_native_aut.Harness.Session.World.{
  Reads, plain, with_receipt, World, Names, Speaks, IsHex, fails,
}
use stylus_mobile_native_aut.Harness.Shell.{Tools}

full-padded : (digits : Text) → length digits ≡ 64 → padded digits ≡ digits
full-padded digits h = rw h refl

-- What is read from the hexadecimal text of a word and of an address.
module _ (tools : Tools) (hex : IsHex tools) where
  read_u256-word :
      (out : Text) (v : ℕ)
      → trim out ≡ hex_text tools (word v)
      → read_u256 tools.hex_decode out ≡ ok (word v)
  unfolding read_u256
  read_u256-word out v e =
      let digits = tools.hex_encode (word v) in
      let size = length-to_be_bytes 32 v in
      let full = full-padded digits (omega (arith, hex.two_digits (word v), size)) in
      let decoded = hex.decodes (word v) (to_be_bytes-AreBytes 32 v) in
      rw (read_u256, e, full, decoded, eq→== _ _ size) refl

  pub parse_addr-hex_text :
      (b : Bytes)
      → AreBytes b
      → length b ≡ 20
      → parse_addr tools.hex_decode (hex_text tools b) ≡ ok b
  parse_addr-hex_text b valid size =
      parse_addr_digits tools.hex_decode (tools.hex_encode b) b (hex.lower_digits b valid)
        (hex.decodes b valid) size

module _ (tools : Tools) (hex : IsHex tools) (world : World tools) (ctx : Ctx) (keccak : Bytes → ℕ)
    (speaks : Speaks tools world ctx keccak) (i : ℕ) where
  abbrev node : Node (world.host i)
  node = world.node i

  -- The account is in this state.
  abbrev pub At : {A : Type 0} → A → tools.Sys → node.State → Type 0
  At a sys s = world.view i sys ≡ s

  module _ (acct : Text) (named : Names tools acct (world.host i).contract_address)
      (sys : tools.Sys) (s : node.State) (at : world.view i sys ≡ s) where
    abbrev here : node.State
    here = world.view i sys

    pub fund-Sim :
        (amount : Text) (wei : ℕ)
        → parse_digits 0 amount ≡ some wei
        → Sim At
            (as_trial (Commands.cast_send_value tools acct amount sys))
            (Scenarios.cast_send_value node wei s)
    unfolding Commands.cast_send_value Scenarios.cast_send_value
    fund-Sim amount wei e =
        rw (← at, run-status tools (value_command acct amount) sys)
          (command-Sim (is_reverted (reply_to node Request.receive here)) _ _ _ _ (λ x. same_send)
            (speaks.funds i sys acct amount wei named e) (λ out sys' h. (tt, refl, h)))

    pub execute-Sim :
        (to_text : Text) (to value n : ℕ) (payload sig sig' : Bytes)
        → Names tools to_text to
        → value < 2 ^ 64
        → n < 2 ^ 64
        → AreBytes payload
        → AreBytes sig
        → sig ≡ sig'
        → Sim At
            (as_trial (Commands.cast_send_execute tools acct to_text value payload n sig sys))
            (Scenarios.cast_send_execute node to value payload n sig' s)
    unfolding Commands.cast_send_execute Scenarios.cast_send_execute Scenarios.cast_send
    execute-Sim to_text to value n payload sig sig' names small_value small_n valid valid_sig same =
        rw
          (
            ← at,
            ← same,
            run-status tools (execute_command tools acct to_text value payload n sig []) sys,
          )
          (command-Sim (is_reverted (reply_to node (Request.execute to value payload n sig) here)) _
            _ _ _ (λ x. same_send)
            (speaks.executes i sys acct to_text to value n payload sig [] plain named names
              small_value small_n valid valid_sig)
            (λ out sys' h. (tt, refl, h)))

    -- The receipt is the output.
    pub receipt-Sim :
        (to_text : Text) (to value n : ℕ) (payload sig sig' : Bytes)
        → Names tools to_text to
        → value < 2 ^ 64
        → n < 2 ^ 64
        → AreBytes payload
        → AreBytes sig
        → sig ≡ sig'
        → Sim
            (λ out sys' r. (out ≡ r.0) × (world.view i sys' ≡ r.1))
            (as_trial
              (Commands.cast_send_execute_with_receipt tools acct to_text value payload n sig sys))
            (Scenarios.cast_send_execute_with_receipt node to value payload n sig' s)
    unfolding Commands.cast_send_execute_with_receipt Scenarios.cast_send_execute_with_receipt
        Scenarios.cast_send
    receipt-Sim to_text to value n payload sig sig' names small_value small_n valid valid_sig same =
        let q = Request.execute to value payload n sig in
        rw
          (
            ← at,
            ← same,
            run-status tools
                (execute_command tools acct to_text value payload n sig (as_bytes "--json" ∷ []))
                sys,
          )
          (output-Sim (is_reverted (reply_to node q here)) _ (node.send q here)
            (λ sent. (node.receipt q here, sent)) _ (λ x. same_send)
            (speaks.executes i sys acct to_text to value n payload sig (as_bytes "--json" ∷ [])
              with_receipt named names small_value small_n valid valid_sig)
            (λ out sys' h. h))

    pub rotate-Sim :
        (x y n : ℕ) (sig sig' : Bytes)
        → x < 2 ^ 256
        → y < 2 ^ 256
        → n < 2 ^ 64
        → AreBytes sig
        → sig ≡ sig'
        → Sim At
            (as_trial (Commands.cast_send_rotate tools acct (word x) (word y) n sig sys))
            (Scenarios.cast_send_rotate node x y n sig' s)
    unfolding Commands.cast_send_rotate Scenarios.cast_send_rotate Scenarios.cast_send
    rotate-Sim x y n sig sig' small_x small_y small_n valid_sig same =
        rw (← at, ← same, run-status tools (rotate_command tools acct (word x) (word y) n sig) sys)
          (command-Sim (is_reverted (reply_to node (Request.rotate_owner x y n sig) here)) _ _ _ _
            (λ x. same_send)
            (speaks.rotates i sys acct x y n sig named small_x small_y small_n valid_sig)
            (λ out sys' h. (tt, refl, h)))

    pub read-Sim :
        (signature : Text) (q : Request) (v : ℕ)
        → Reads signature q
        → reply_to node q (world.view i sys) ≡ Reply.word v
        → Sim
            (λ got sys' got'. (got ≡ got') × (world.view i sys' ≡ s))
            (as_trial (Commands.cast_call_u256 tools acct signature sys))
            (Scenarios.cast_call_u256 node q s)
    unfolding Commands.cast_call_u256 Scenarios.cast_call_u256
    read-Sim signature q v known e =
        rw (← at, run-status tools (call_command acct signature) sys, Scenarios.cast_call_u256, e)
          (command-Sim false _ _ (word v) Scenarios.call_failed (λ x. same_call)
            (speaks.reads i sys acct signature q v named known e)
            (λ out sys' h. (word v, read_u256-word tools hex out v h.0, (refl, h.1))))

    pub balance-Sim :
        Sim
          (λ text sys' wei. (text ≡ decimal 78 wei) × (world.view i sys' ≡ s))
          (as_trial (Commands.cast_call_balance tools acct sys))
          (Scenarios.cast_call_balance node s)
    unfolding Commands.cast_call_balance
    balance-Sim =
        rw (← at, run-status tools (balance_command acct) sys)
          (command-Sim false _ _ (node.balance here) Scenarios.call_failed (λ x. same_call)
            (speaks.shows i sys acct named) (λ out sys' h. (trim out, refl, h)))

deployed-if :
    {E A S : Type 0} (r : Result E A) (s : S)
    → (elim r [ ok _ ↦ ok s | err e ↦ err deploy_failed | panic ↦ err deploy_failed ])
      ≡ (if fails r then err deploy_failed else ok s)
deployed-if (ok a) s = refl
deployed-if (err e) s = refl
deployed-if panic s = refl

-- The next account is made, and its address is found and parsed.
pub deploy-Sim :
    (tools : Tools) (world : World tools) (ctx : Ctx) (keccak : Bytes → ℕ)
    (speaks : Speaks tools world ctx keccak) (kp : Keypair) (sys : tools.Sys)
    → kp.pub_x < 2 ^ 256
    → kp.pub_y < 2 ^ 256
    → let i = world.next_account sys in
      let address = (world.host i).contract_address in
      Sim
        (λ acct sys' s.
          Names tools acct.0 address × (acct.1 ≡ to_be_bytes 20 address) × (world.view i sys' ≡ s))
        (deploy_fresh tools kp ctx.dev_addr_hex sys)
        (Scenarios.deploy_fresh (world.node i) kp)
unfolding deploy_fresh Scenarios.deploy_fresh Commands.cargo_stylus_deploy
deploy-Sim tools world ctx keccak speaks kp sys small_x small_y =
    let i = world.next_account sys in
    let (r, m) = constructor kp.pub_x kp.pub_y fresh in
    let address = (world.host i).contract_address in
    let made =
      command-Sim {Q = λ t sys' s. Names tools t address × (world.view i sys' ≡ s)} (fails r)
        (tools.output (deploy_command tools (word kp.pub_x) (word kp.pub_y)) sys) _
        ((world.node i).deployed m) deploy_failed (λ x. same_deploy)
        (speaks.deploys kp.pub_x kp.pub_y sys small_x small_y)
        (λ out sys' h. (h.0, rw h.1 refl, (h.2, h.3))) in
    rw
      (
        run-status tools (deploy_command tools (word kp.pub_x) (word kp.pub_y)) sys,
        deployed-if r ((world.node i).deployed m),
      )
      (Sim-then made (λ t sys' s h. rw h.0.1 (both_ok (h.0, refl, h.1))))
