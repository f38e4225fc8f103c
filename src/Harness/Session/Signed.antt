-- ===== src/Harness/Session/Signed.antt =====
-- The signed calls of a session, and the receipts it reads, against those of the scenario on the account
-- that the session deploys.
use stylus_mobile_native_aut.Base.{
  ℕ, Bool, Result, ok, err, panic, ◌<◌, ◌^◌, ◌≡◌, refl, ap, sym, ◌∙◌, [], arith, some,
}
use stylus_mobile_native_aut.Bytes.{Bytes, to_be_bytes}
use stylus_mobile_native_aut.Bytes.Valid.{AreBytes, to_be_bytes-from_be_bytes, from_be_bytes-below}
use stylus_mobile_native_aut.Eip712.{word}
use stylus_mobile_native_aut.Harness.{as_bytes, execute_hash, rotate_hash}
use stylus_mobile_native_aut.Harness.Digests.{keccak256}
use stylus_mobile_native_aut.Harness.Node.{Node}
use stylus_mobile_native_aut.Harness.Output.{Text}
use stylus_mobile_native_aut.Harness.Receipt.{
  Json, ReceiptError, parse_executed_outcome_from_receipt,
}
use stylus_mobile_native_aut.Harness.Scenarios
use stylus_mobile_native_aut.Harness.Scenarios.{
  Keypair, call_hash, rotation_hash, wrong_owner_x, wrong_owner_y, inner_succeeded, bad_receipt,
}
use stylus_mobile_native_aut.Harness.Session
use stylus_mobile_native_aut.Harness.Session.{
  as_trial, of_receipt, owner_x_mismatch, owner_y_mismatch, inner_call_succeeded,
}
use stylus_mobile_native_aut.Harness.Session.Checks.{call_hash-same, rotation_hash-same, nonce-Sim}
use stylus_mobile_native_aut.Harness.Session.Replies.{
  At, fund-Sim, execute-Sim, receipt-Sim, rotate-Sim, parse_addr-hex_text,
}
use stylus_mobile_native_aut.Harness.Session.Sim.{Sim, both_ok, both_err, both_panic, same_receipt}
use stylus_mobile_native_aut.Harness.Session.World.{
  wallet, IsContext, Setting, World, Names, Speaks, IsHex,
}
use stylus_mobile_native_aut.Harness.Shell.{Tools, parse_digits}
use stylus_mobile_native_aut.Harness.Shell.Commands
use stylus_mobile_native_aut.Harness.Shell.Commands.{Ctx, hex_text}

-- The coordinates fit in words, and signatures are bytes.
pub record IsKey (kp : Keypair) : Type 0 where
  pub small_x : kp.pub_x < 2 ^ 256
  pub small_y : kp.pub_y < 2 ^ 256
  pub signs : (hash : Bytes) → AreBytes (kp.sign hash)

-- A parsed receipt, as the two kinds of error hold it.
receipt_read-Sim :
    {Sys : Type 0} (r : Result ReceiptError (Bool × Bytes)) (now : Sys)
    → Sim
        (λ found sys' found'. (found ≡ found') × (sys' ≡ now))
        (elim r [ ok found ↦ ok found | err e ↦ err (of_receipt e) | panic ↦ panic ], now)
        (elim r [ ok found ↦ ok found | err e ↦ err (bad_receipt e) | panic ↦ panic ])
receipt_read-Sim (ok found) now = both_ok (refl, refl)
receipt_read-Sim (err e) now = both_err same_receipt
receipt_read-Sim panic now = both_panic

eth_digits : parse_digits 0 (as_bytes "1000000000000000000") ≡ some 1_000_000_000_000_000_000
unfolding parse_digits
eth_digits = refl

module _ (setting : Setting) (sys : setting.tools.Sys) where
  abbrev tools : Tools
  tools = setting.tools

  abbrev hex : IsHex tools
  hex = setting.hex

  abbrev world : World tools
  world = setting.world

  abbrev ctx : Ctx
  ctx = setting.ctx

  abbrev context : IsContext tools ctx
  context = setting.context

  abbrev keccak : Bytes → ℕ
  keccak = setting.keccak

  abbrev speaks : Speaks tools world ctx keccak
  speaks = setting.speaks

  abbrev pub i : ℕ
  i = world.next_account sys

  abbrev pub node : Node (world.host i)
  node = world.node i

  pub wallet_bytes : ctx.dev_addr ≡ to_be_bytes 20 (wallet ctx)
  wallet_bytes = sym (to_be_bytes-from_be_bytes 20 ctx.dev_addr context.size context.valid)

  wallet-below : wallet ctx < 2 ^ 160
  wallet-below = from_be_bytes-below 20 ctx.dev_addr context.size context.valid

  wallet_hex-Names : Names tools (hex_text tools ctx.dev_addr) (wallet ctx)
  wallet_hex-Names = (
    wallet-below,
    parse_addr-hex_text tools hex ctx.dev_addr context.valid context.size ∙ ap ok wallet_bytes,
  )

  pub wallet_text-Names : Names tools ctx.dev_addr_hex (wallet ctx)
  wallet_text-Names = (wallet-below, context.parsed ∙ ap ok wallet_bytes)

  module _ (acct : Text × Bytes) (named : Names tools acct.0 (world.host i).contract_address)
      (same : acct.1 ≡ to_be_bytes 20 (world.host i).contract_address) (now : tools.Sys)
      (s : node.State) (at : world.view i now ≡ s) where
    -- The signature of `kp` for a call.
    abbrev call_signature : Keypair → Bytes → ℕ → Bytes → ℕ → Bytes
    call_signature kp to_bytes value payload n = kp.sign (
        execute_hash (keccak256 keccak) ctx.chain_id acct.1 to_bytes (Session.u64_to_u256_be value)
          payload (Session.u64_to_u256_be n))

    pub funded-Sim :
        Sim
          (At tools hex world ctx keccak speaks i)
          (as_trial (Commands.cast_send_value tools acct.0 (as_bytes "1000000000000000000") now))
          (Scenarios.cast_send_value node 1_000_000_000_000_000_000 s)
    funded-Sim = fund-Sim tools hex world ctx keccak speaks i acct.0 named now s at _ _ eth_digits

    pub wei-Sim :
        Sim
          (At tools hex world ctx keccak speaks i)
          (as_trial (Commands.cast_send_value tools acct.0 (as_bytes "1") now))
          (Scenarios.cast_send_value node 1 s)
    unfolding parse_digits
    wei-Sim = fund-Sim tools hex world ctx keccak speaks i acct.0 named now s at _ _ refl

    -- A call of the wallet that `kp` signs.
    pub call-Sim :
        (kp : Keypair) (value n : ℕ)
        → IsKey kp
        → value < 2 ^ 64
        → n < 2 ^ 64
        → Sim
            (At tools hex world ctx keccak speaks i)
            (as_trial (
              Commands.cast_send_execute tools acct.0
                (hex_text tools ctx.dev_addr)
                value
                []
                n
                (call_signature kp ctx.dev_addr value [] n)
                now))
            (Scenarios.cast_send_execute node
              (wallet ctx)
              value
              []
              n
              (kp.sign (call_hash node (wallet ctx) value [] n))
              s)
    call-Sim kp value n key small_value small_n =
        let hash =
          call_hash-same tools hex world ctx keccak speaks i acct.1 same ctx.dev_addr (wallet ctx)
            value [] n wallet_bytes in
        execute-Sim tools hex world ctx keccak speaks i acct.0 named now s at
          (hex_text tools ctx.dev_addr) (wallet ctx) value n [] _ _ wallet_hex-Names small_value
          small_n tt (key.signs _) (ap kp.sign hash)

    -- A call that `kp` signs, with its receipt.
    pub call_receipt-Sim :
        (kp : Keypair) (to_text : Text) (to_bytes : Bytes) (to value : ℕ) (payload : Bytes)
        → IsKey kp
        → Names tools to_text to
        → to_bytes ≡ to_be_bytes 20 to
        → value < 2 ^ 64
        → AreBytes payload
        → Sim
            (λ out sys' r. (out ≡ r.0) × (world.view i sys' ≡ r.1))
            (as_trial (
              Commands.cast_send_execute_with_receipt tools acct.0 to_text value payload 0
                (call_signature kp to_bytes value payload 0)
                now))
            (Scenarios.cast_send_execute_with_receipt node to value payload 0
              (kp.sign (call_hash node to value payload 0))
              s)
    call_receipt-Sim kp to_text to_bytes to value payload key names same_to small valid =
        let hash =
          call_hash-same tools hex world ctx keccak speaks i acct.1 same to_bytes to value payload 0
            same_to in
        receipt-Sim tools hex world ctx keccak speaks i acct.0 named now s at to_text to value 0
          payload _ _ names small (omega arith) valid (key.signs _) (ap kp.sign hash)

    -- A rotation to `kp'` that `kp` signs.
    pub rotation-Sim :
        (kp kp' : Keypair) (n : ℕ)
        → IsKey kp
        → IsKey kp'
        → n < 2 ^ 64
        → Sim
            (At tools hex world ctx keccak speaks i)
            (as_trial (
              Commands.cast_send_rotate tools acct.0
                (word kp'.pub_x)
                (word kp'.pub_y)
                n
                (kp.sign (
                  rotate_hash
                    (keccak256 keccak)
                    ctx.chain_id
                    acct.1
                    (word kp'.pub_x)
                    (word kp'.pub_y)
                    (Session.u64_to_u256_be n)))
                now))
            (Scenarios.cast_send_rotate node kp'.pub_x kp'.pub_y n
              (kp.sign (rotation_hash node kp' n))
              s)
    rotation-Sim kp kp' n key key' small =
        let hash = rotation_hash-same tools hex world ctx keccak speaks i acct.1 same kp' n in
        rotate-Sim tools hex world ctx keccak speaks i acct.0 named now s at kp'.pub_x kp'.pub_y n _
          _ key'.small_x key'.small_y small (key.signs _) (ap kp.sign hash)

    abbrev pub check-Sim :
        (n : ℕ)
        → Sim
            (λ a sys' b. world.view i sys' ≡ s)
            (Session.expect_nonce tools acct.0 n now)
            (Scenarios.expect_nonce node n s)
    check-Sim n = nonce-Sim tools hex world ctx keccak speaks i acct.0 named now s at n

  module _ (json : Json) where
    -- The receipt is read alike.
    pub outcome-Sim :
        (receipt : Bytes) (now : tools.Sys)
        → Sim
            (λ found sys' found'. (found ≡ found') × (sys' ≡ now))
            (Session.executed_outcome tools (keccak256 keccak) json receipt now)
            (Scenarios.executed_outcome json node receipt)
    outcome-Sim receipt now =
        receipt_read-Sim (parse_executed_outcome_from_receipt json receipt) now
