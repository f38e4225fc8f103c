-- ===== src/Harness/Scenarios/Funds.antt =====
-- The outcome of the scenarios that read the outcome of a failing call from the receipt.
use stylus_mobile_native_aut.Base.{
  ℕ, ◌+◌, ◌<◌, ◌^◌, ◌≡◌, refl, ap, ◌∙◌, ok, [], ◌∷◌, ◌++◌, false, length, arith,
}
use stylus_mobile_native_aut.Bytes.{Bytes}
use stylus_mobile_native_aut.Host.{Host}
use stylus_mobile_native_aut.Machine.{called, logged, executed}
use stylus_mobile_native_aut.Errors.{unknown_selector}
use stylus_mobile_native_aut.Account.{execute_outcome}
use stylus_mobile_native_aut.Account.Execute.{opened}
use stylus_mobile_native_aut.Receivers.{fallback}
use stylus_mobile_native_aut.Chain.{outcome, failed, serve, world, run_program}
use stylus_mobile_native_aut.Chain.Transition.{execute_digest}
use stylus_mobile_native_aut.Eip712.{word}
use stylus_mobile_native_aut.Harness.Node.{Node, IsNode, garbage}
use stylus_mobile_native_aut.Harness.Receipt.{Json}
use stylus_mobile_native_aut.Harness.Receipt.Search.{parse_receipt}
use stylus_mobile_native_aut.Harness.Scenarios.{
  Keypair, cast_send_execute_with_receipt, executed_outcome, expect_balance,
  test_execute_reverting_target_consumes_nonce, test_execute_value_exceeds_balance,
}
use stylus_mobile_native_aut.Harness.Scenarios.Steps.{
  CanSign, Holds, call_request, call_outcome, deploy_lem, fund_lem, execute_done, execute_lem,
  nonce_lem, call_hash_lem, zero_word, one_word, two_word,
}

module _ (host : Host) (json : Json) (node : Node host) (laws : IsNode host json node) where
  -- A call with more value than the balance.
  poor_outcome :
      (s : node.State) (to value : ℕ) (payload : Bytes)
      → node.balance s < value
      → call_outcome host json node laws s to value payload ≡ (false, [])
  unfolding world run_program execute_outcome
  poor_outcome s to value payload poor =
      rw (laws.out_of_funds s to value payload (opened to value payload (node.machine s)) poor) refl

  -- A call to the account itself with calldata that no method claims.
  self_outcome :
      (s : node.State)
      → call_outcome host json node laws s host.contract_address 0 garbage
        ≡ (false, node.encode (failed unknown_selector))
  unfolding world run_program execute_outcome serve fallback
  self_outcome s =
      rw (laws.own_code s (opened host.contract_address 0 garbage (node.machine s))) refl

  -- A call of the owner that fails with `return_data`: the transaction is sent, and its receipt is read
  -- as a failure.
  failing_call :
      (kp : Keypair) (s : node.State) (can : CanSign host kp) (o : Holds host json node laws s kp 0)
      (to value : ℕ) (payload return_data : Bytes)
      → call_outcome host json node laws s to value payload ≡ (false, return_data)
      → length return_data + 160 < 2 ^ 64
      → let q = call_request host json node laws kp to value payload 0 in
        let sig = kp.sign (word (execute_digest host to value payload 0)) in
        (cast_send_execute_with_receipt node to value payload 0 sig s
          ≡ ok (node.receipt q s, node.send q s))
        × (executed_outcome json node (node.receipt q s) ≡ ok (false, return_data))
        × Holds host json node laws (node.send q s) kp 1
        × (node.balance (node.send q s) ≡ node.balance s)
  unfolding cast_send_execute_with_receipt
  failing_call kp s can o to value payload return_data fails small =
      let q = call_request host json node laws kp to value payload 0 in
      let sig = kp.sign (word (execute_digest host to value payload 0)) in
      let done = execute_done host json node laws kp s 0 can o (omega arith) to value payload in
      let (sent, o') =
        execute_lem host json node laws kp s 0 can o (omega arith) to value payload in
      let h = laws.receipt_logs s q to value 0 payload return_data false (
        ap (λ p. p.1.journal) done
        ∙ ap
            (λ found.
              (node.machine s).journal
              ++ (called to value payload ∷ logged (executed to value 0 found.0 found.1) ∷ []))
            fails) in
      let parsed =
        parse_receipt json (node.receipt q s) h.root h.before h.after h.log h.data_value h.data_hex
          value 0 false return_data h.padding h.parsed h.logs h.none_before h.found h.at_data
          h.as_text h.decoded small in
      (
        rw sent refl,
        rw (executed_outcome, parsed) refl,
        o',
        laws.failed_balance s to value 0 payload sig return_data
            (ap (λ p. p.0) done ∙ ap (λ found. outcome found.0 found.1) fails),
      )

  -- For a key that can sign, the scenario `reverting_target_consumes_nonce` passes on a node that obeys
  -- `IsNode`: the account's call to itself meets its own fallback and reverts, the receipt says so,
  -- and the nonce is consumed.
  pub test_execute_reverting_target_passes :
      (kp : Keypair)
      → CanSign host kp
      → test_execute_reverting_target_consumes_nonce json node kp ≡ ok tt
  unfolding test_execute_reverting_target_consumes_nonce
  test_execute_reverting_target_passes kp can =
      let (s, deployed, o, empty) = deploy_lem host json node laws kp can in
      let (sent, read, o', kept) =
        failing_call kp s can o host.contract_address 0 garbage _ (self_outcome s)
          (laws.encode_small (failed unknown_selector)) in
      rw
        (
          deployed,
          call_hash_lem host json node laws host.contract_address 0 garbage 0 zero_word zero_word,
          sent,
          read,
        )
        (nonce_lem host json node laws kp _ 1 o' one_word)

  -- For a key that can sign, the scenario `value_exceeds_balance` passes on a node that obeys `IsNode`:
  -- a call with 2 wei from an account that holds 1 fails without return data, the receipt says so, the
  -- balance stays at 1 and the nonce is consumed.
  pub test_execute_value_exceeds_balance_passes :
      (kp : Keypair) (to : ℕ)
      → CanSign host kp
      → test_execute_value_exceeds_balance json node kp to ≡ ok tt
  unfolding test_execute_value_exceeds_balance expect_balance
  test_execute_value_exceeds_balance_passes kp to can =
      let (s, deployed, o, empty) = deploy_lem host json node laws kp can in
      let (funded, o', balance) = fund_lem host json node laws kp s 0 1 o in
      let s' = node.fund 1 s in
      let one : node.balance s' ≡ 1 = omega (arith, balance, empty) in
      let (sent, read, o1, kept) =
        failing_call kp s' can o' to 2 [] [] (poor_outcome s' to 2 [] (omega (arith, one)))
          (omega arith) in
      rw
        (
          deployed,
          funded,
          one,
          call_hash_lem host json node laws to 2 [] 0 two_word zero_word,
          sent,
          read,
          kept ∙ one,
        )
        (nonce_lem host json node laws kp _ 1 o1 one_word)
