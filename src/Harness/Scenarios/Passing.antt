-- ===== src/Harness/Scenarios/Passing.antt =====
-- The outcome of the scenarios that read no receipt, for keys that can sign.
use stylus_mobile_native_aut.Base.{ℕ, ◌≡◌, ok, [], arith}
use stylus_mobile_native_aut.Receivers.Interfaces.{bytes_eq_refl}
use stylus_mobile_native_aut.Host.{Host}
use stylus_mobile_native_aut.Eip712.{word}
use stylus_mobile_native_aut.Harness.Node.{Node, IsNode}
use stylus_mobile_native_aut.Harness.Receipt.{Json}
use stylus_mobile_native_aut.Harness.Scenarios.{
  Keypair, cast_send_execute, cast_send_rotate, test_execute_happy_path,
  test_rotate_owner_changes_state, test_nonce_monotonicity_across_execute_and_rotate,
}
use stylus_mobile_native_aut.Harness.Scenarios.Steps.{
  CanSign, deploy_lem, fund_lem, execute_lem, rotate_lem, nonce_lem, owner_x_lem, owner_y_lem,
  rotation_hash_lem, call_hash_lem, zero_word, one_word, two_word, three_word, gwei_word,
}

module _ (host : Host) (json : Json) (node : Node host) (laws : IsNode host json node) where
  -- For a key that can sign, the scenario `happy_path` passes on a node that obeys `IsNode`, whatever
  -- code the account calls: also if the call fails, since the scenario checks the nonce only.
  pub test_execute_happy_path_passes :
      (kp : Keypair) (to : ℕ) → CanSign host kp → test_execute_happy_path node kp to ≡ ok tt
  unfolding test_execute_happy_path cast_send_execute
  test_execute_happy_path_passes kp to can =
      let (s, deployed, o, empty) = deploy_lem host json node laws kp can in
      let (funded, o', rich) = fund_lem host json node laws kp s 0 1_000_000_000_000_000_000 o in
      let s' = node.fund 1_000_000_000_000_000_000 s in
      let (executed, o1) =
        execute_lem host json node laws kp s' 0 can o' (omega arith) to 1_000_000_000 [] in
      rw
        (
          deployed,
          funded,
          call_hash_lem host json node laws to 1_000_000_000 [] 0 gwei_word zero_word,
          executed,
        )
        (nonce_lem host json node laws kp _ 1 o1 one_word)

  -- For two keys that can sign, the scenario `rotate_owner` passes on a node that obeys `IsNode`,
  -- whatever code the account calls.
  pub test_rotate_owner_passes :
      (kp_old kp_new : Keypair)
      → CanSign host kp_old
      → CanSign host kp_new
      → test_rotate_owner_changes_state node kp_old kp_new ≡ ok tt
  unfolding test_rotate_owner_changes_state cast_send_rotate
  test_rotate_owner_passes kp_old kp_new can can' =
      let (s, deployed, o, empty) = deploy_lem host json node laws kp_old can in
      let (rotated, o') =
        rotate_lem host json node laws kp_old s 0 can o (omega arith) kp_new can' in
      rw
        (
          deployed,
          rotation_hash_lem host json node laws kp_new 0 zero_word,
          rotated,
          owner_x_lem host json node laws kp_new _ 1 o',
          owner_y_lem host json node laws kp_new _ 1 o',
          bytes_eq_refl (word kp_new.pub_x),
          bytes_eq_refl (word kp_new.pub_y),
        )
        (nonce_lem host json node laws kp_new _ 1 o' one_word)

  -- For two keys that can sign, the scenario `nonce_monotonicity` passes on a node that obeys
  -- `IsNode`: the nonce is 1 after a call, 2 after the rotation and 3 after a call that the new key
  -- signs, whatever code the account calls.
  pub test_nonce_monotonicity_passes :
      (kp1 kp2 : Keypair) (to : ℕ)
      → CanSign host kp1
      → CanSign host kp2
      → test_nonce_monotonicity_across_execute_and_rotate node kp1 kp2 to ≡ ok tt
  unfolding test_nonce_monotonicity_across_execute_and_rotate cast_send_execute cast_send_rotate
  test_nonce_monotonicity_passes kp1 kp2 to can can' =
      let (s, deployed, o, empty) = deploy_lem host json node laws kp1 can in
      let (funded, o', rich) = fund_lem host json node laws kp1 s 0 1_000_000_000_000_000_000 o in
      let s' = node.fund 1_000_000_000_000_000_000 s in
      let (executed, o1) = execute_lem host json node laws kp1 s' 0 can o' (omega arith) to 1 [] in
      let (rotated, o2) = rotate_lem host json node laws kp1 _ 1 can o1 (omega arith) kp2 can' in
      let (again, o3) = execute_lem host json node laws kp2 _ 2 can' o2 (omega arith) to 1 [] in
      rw
        (
          deployed,
          funded,
          call_hash_lem host json node laws to 1 [] 0 one_word zero_word,
          executed,
          nonce_lem host json node laws kp1 _ 1 o1 one_word,
          rotation_hash_lem host json node laws kp2 1 one_word,
          rotated,
          nonce_lem host json node laws kp2 _ 2 o2 two_word,
          call_hash_lem host json node laws to 1 [] 2 one_word two_word,
          again,
        )
        (nonce_lem host json node laws kp2 _ 3 o3 three_word)
