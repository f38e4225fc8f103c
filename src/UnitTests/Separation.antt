-- ===== src/UnitTests/Separation.antt =====
-- The tests that the digests of different messages differ.
use stylus_mobile_native_aut.Base.{
  ℕ, ◌+◌, Bool, false, not, Option, none, some, List, [], ◌∷◌, ◌==◌,
}
use stylus_mobile_native_aut.Bytes.{Bytes}
use stylus_mobile_native_aut.Eip712.{
  compute_execute_hash, compute_rotate_hash, compute_batch_hash, compute_personal_sign_hash,
}
use stylus_mobile_native_aut.Harness.{as_bytes}
use stylus_mobile_native_aut.UnitTests.{all_pass, address_of, b256_of, u, gx, gy}

-- `assert_eq!` and `assert_ne!` on digests; computing a batch's digest may panic.
abbrev pub eq : ℕ → ℕ → Bool
eq a b = a == b

abbrev pub ne : ℕ → ℕ → Bool
ne a b = not (a == b)

abbrev pub ne_some : Option ℕ → ℕ → Bool
ne_some o b = elim o [ none ↦ false | some a ↦ ne a b ]

abbrev pub ne_batch : Option ℕ → Option ℕ → Bool
ne_batch o p = elim p [ none ↦ false | some b ↦ ne_some o b ]

-- `batch_fixture`
abbrev pub fixture_to : List ℕ
fixture_to = address_of 0x11 ∷ address_of 0x22 ∷ []

abbrev pub fixture_value : List ℕ
fixture_value = 0 ∷ 7 ∷ []

abbrev pub fixture_data : List Bytes
fixture_data = as_bytes "approve" ∷ as_bytes "swap" ∷ []

module _ (keccak : Bytes → ℕ) where
  unfoldable pub execute_hash_is_domain_separated : Bool
  execute_hash_is_domain_separated =
      let acct = address_of 0x11 in
      let to = address_of 0x22 in
      let text = as_bytes "hello" in
      let h1 = compute_execute_hash keccak 42161 acct to 1000 text 0 in
      let h2 = compute_execute_hash keccak 42161 acct to 1000 text 0 in
      all_pass (
        eq h1 h2
        ∷ ne h1 (compute_execute_hash keccak 421614 acct to 1000 text 0)
        ∷ ne h1 (compute_execute_hash keccak 42161 (address_of 0x99) to 1000 text 0)
        ∷ ne h1 (compute_execute_hash keccak 42161 acct to 1000 text 1)
        ∷ ne h1 (compute_execute_hash keccak 42161 acct (address_of 0x33) 1000 text 0)
        ∷ ne h1 (compute_execute_hash keccak 42161 acct to 2000 text 0)
        ∷ ne h1 (compute_execute_hash keccak 42161 acct to 1000 (as_bytes "world") 0)
        ∷ [])

  unfoldable pub rotate_hash_is_domain_separated_and_distinct_from_execute : Bool
  rotate_hash_is_domain_separated_and_distinct_from_execute =
      let acct = address_of 0x11 in
      let h1 = compute_rotate_hash keccak 42161 acct 0xAA 0xBB 0 in
      let h2 = compute_rotate_hash keccak 42161 acct 0xAA 0xBB 0 in
      all_pass (
        eq h1 h2
        ∷ ne h1 (compute_rotate_hash keccak 421614 acct 0xAA 0xBB 0)
        ∷ ne h1 (compute_rotate_hash keccak 42161 (address_of 0x99) 0xAA 0xBB 0)
        ∷ ne h1 (compute_rotate_hash keccak 42161 acct (0xAA + 1) 0xBB 0)
        ∷ ne h1 (compute_rotate_hash keccak 42161 acct 0xAA (0xBB + 1) 0)
        ∷ ne h1 (compute_rotate_hash keccak 42161 acct 0xAA 0xBB 1)
        ∷ ne h1 (compute_execute_hash keccak 42161 acct 0 0 [] 0)
        ∷ [])

  unfoldable pub batch_hash_is_domain_separated : Bool
  batch_hash_is_domain_separated =
      let acct = address_of 0xaa in
      let base = compute_batch_hash keccak 42161 acct fixture_to fixture_value fixture_data 0 in
      all_pass (
        ne_batch base (compute_batch_hash keccak 1 acct fixture_to fixture_value fixture_data 0)
        ∷ ne_batch base (
            compute_batch_hash keccak 42161 (address_of 0xbb) fixture_to fixture_value fixture_data
              0)
        ∷ ne_batch base
            (compute_batch_hash keccak 42161 acct fixture_to fixture_value fixture_data 1)
        ∷ [])

  unfoldable pub batch_hash_is_order_sensitive : Bool
  batch_hash_is_order_sensitive =
      let acct = address_of 0xaa in
      let to_rev = address_of 0x22 ∷ address_of 0x11 ∷ [] in
      let value_rev = 7 ∷ 0 ∷ [] in
      let data_rev = as_bytes "swap" ∷ as_bytes "approve" ∷ [] in
      all_pass (
        ne_batch (compute_batch_hash keccak 42161 acct fixture_to fixture_value fixture_data 0)
          (compute_batch_hash keccak 42161 acct to_rev value_rev data_rev 0)
        ∷ [])

  unfoldable pub batch_hash_binds_every_field_of_every_call : Bool
  batch_hash_binds_every_field_of_every_call =
      let acct = address_of 0xaa in
      let base = compute_batch_hash keccak 42161 acct fixture_to fixture_value fixture_data 0 in
      let to2 = address_of 0x11 ∷ address_of 0x33 ∷ [] in
      let value2 = 0 ∷ 8 ∷ [] in
      let data2 = as_bytes "approve" ∷ as_bytes "swap!" ∷ [] in
      all_pass (
        ne_batch base (compute_batch_hash keccak 42161 acct to2 fixture_value fixture_data 0)
        ∷ ne_batch base (compute_batch_hash keccak 42161 acct fixture_to value2 fixture_data 0)
        ∷ ne_batch base (compute_batch_hash keccak 42161 acct fixture_to fixture_value data2 0)
        ∷ [])

  unfoldable pub single_call_batch_does_not_collide_with_execute : Bool
  single_call_batch_does_not_collide_with_execute =
      let acct = address_of 0xaa in
      let to = address_of 0x11 in
      let text = as_bytes "x" in
      all_pass (
        ne_some (compute_batch_hash keccak 42161 acct (to ∷ []) (5 ∷ []) (text ∷ []) 3)
          (compute_execute_hash keccak 42161 acct to 5 text 3)
        ∷ [])

  unfoldable pub an_execute_digest_presented_as_a_1271_challenge_no_longer_round_trips : Bool
  an_execute_digest_presented_as_a_1271_challenge_no_longer_round_trips =
      let account = address_of 0xaa in
      let execute_digest =
        compute_execute_hash keccak 42161 account (address_of 0xba) 1_000_000_000_000_000_000 []
          0 in
      let challenge = compute_personal_sign_hash keccak 42161 account execute_digest in
      all_pass (ne challenge execute_digest ∷ [])

  unfoldable pub personal_sign_is_domain_separated : Bool
  personal_sign_is_domain_separated =
      let hash = b256_of 0x11 in
      let a = address_of 0xaa in
      let base = compute_personal_sign_hash keccak 42161 a hash in
      all_pass (
        ne base (compute_personal_sign_hash keccak 1 a hash)
        ∷ ne base (compute_personal_sign_hash keccak 42161 (address_of 0xbb) hash)
        ∷ ne base (compute_personal_sign_hash keccak 42161 a (b256_of 0x12))
        ∷ [])

  -- The loop over the three targets.
  unfoldable pub wrapped_differs : ℕ → ℕ → ℕ → ℕ → Bool
  wrapped_differs target exec rotate batch =
      let wrapped = compute_personal_sign_hash keccak 42161 (address_of 0xaa) target in
      all_pass (ne wrapped exec ∷ ne wrapped rotate ∷ ne wrapped batch ∷ [])

  unfoldable pub personal_sign_cannot_collide_with_any_authorisation_hash : Bool
  unfolding wrapped_differs u
  personal_sign_cannot_collide_with_any_authorisation_hash =
      let account = address_of 0xaa in
      let to = address_of 0x11 in
      let exec = compute_execute_hash keccak 42161 account to 0 [] 0 in
      let rotate = compute_rotate_hash keccak 42161 account (u gx) (u gy) 0 in
      elim (compute_batch_hash keccak 42161 account (to ∷ []) (0 ∷ []) ([] ∷ []) 0) [
        | none ↦ false
        | some batch ↦ all_pass (
            wrapped_differs exec exec rotate batch
            ∷ wrapped_differs rotate exec rotate batch
            ∷ wrapped_differs batch exec rotate batch
            ∷ [])
      ]

  abbrev pub separation_suite : List Bool
  separation_suite =
      execute_hash_is_domain_separated ∷ rotate_hash_is_domain_separated_and_distinct_from_execute
      ∷ batch_hash_is_domain_separated ∷ batch_hash_is_order_sensitive
      ∷ batch_hash_binds_every_field_of_every_call ∷ single_call_batch_does_not_collide_with_execute
      ∷ an_execute_digest_presented_as_a_1271_challenge_no_longer_round_trips
      ∷ personal_sign_is_domain_separated ∷ personal_sign_cannot_collide_with_any_authorisation_hash
      ∷ []
