-- ===== src/Eip712/Binding.antt =====
-- What two messages with one digest have in common.
use stylus_mobile_native_aut.Base.{
  ℕ, ◌≡◌, refl, sym, ap, ap₂, ◌∙◌, ◌⊎◌, inl, inr, List, [], ◌∷◌, ◌++◌, length, length-append, arith,
}
use stylus_mobile_native_aut.Bytes.{Bytes, IsU256, IsU64, IsAddress}
use stylus_mobile_native_aut.Bytes.RoundTrip.{length-to_be_bytes}
use stylus_mobile_native_aut.Eip712.{
  word, call_buf, envelope_buf, execute_typehash, batch_typehash, rotate_typehash,
  personal_sign_typehash, domain_buf, compute_domain_separator, eip712_envelope,
  compute_execute_hash, compute_rotate_hash, compute_personal_sign_hash,
}
use stylus_mobile_native_aut.Eip712.Calls.{call_hashes}
use stylus_mobile_native_aut.Eip712.Collision.{
  Collision, equal_or_collide, Collision-cons, and_then, map_both,
}
use stylus_mobile_native_aut.Eip712.Fields.{
  word-cancel, envelope-fields, domain-fields, call-fields, execute-fields, rotate-fields,
  batch-fields, personal_sign-fields,
}
use stylus_mobile_native_aut.Eip712.Layout.{
  execute_layout, batch_layout, rotate_layout, personal_sign_layout,
}
use stylus_mobile_native_aut.Eip712.Message.{
  Message, execute, batch, rotate, personal_sign, AreCalls, IsMessage, digest_of, struct_buf,
  call_parts, parts, hashed,
}

module _ (keccak : Bytes → ℕ) (digest_word : (m : Bytes) → IsU256 (keccak m)) where
  word-not-nil : (a : ℕ) (xs : Bytes) → ¬ (◌≡◌ {A = Bytes} [] (word a ++ xs))
  word-not-nil a xs e =
      omega (arith, ap length e, length-append {0} (word a) xs, length-to_be_bytes 32 a)

  -- The hashes of two batches' calls agree only for the same calls in the same order.
  call_hashes-binding :
      (ts ts' vs vs' : List ℕ) (ds ds' : List Bytes)
      → AreCalls ts vs ds
      → AreCalls ts' vs' ds'
      → call_hashes keccak ts vs ds ≡ call_hashes keccak ts' vs' ds'
      → ((ts ≡ ts') × (vs ≡ vs') × (ds ≡ ds'))
        ⊎ Collision keccak (call_parts keccak ts vs ds) (call_parts keccak ts' vs' ds')
  call_hashes-binding [] [] [] [] [] [] w w' e = inl (refl, refl, refl)
  call_hashes-binding [] (t' ∷ ts') [] (v' ∷ vs') [] (d' ∷ ds') w w' e = absurd (word-not-nil _ _ e)
  call_hashes-binding (t ∷ ts) [] (v ∷ vs) [] (d ∷ ds) [] w w' e = absurd (word-not-nil _ _ (sym e))
  call_hashes-binding (t ∷ ts) (t' ∷ ts') (v ∷ vs) (v' ∷ vs') (d ∷ ds) (d' ∷ ds') w w' e =
      let b = call_buf keccak t v d in
      let b' = call_buf keccak t' v' d' in
      let (firsts, rests) = word-cancel (keccak b) (keccak b') (digest_word b) (digest_word b') e in
      and_then (equal_or_collide keccak b b' (inl refl) (inl refl) firsts) λ same.
        let fields = call-fields keccak digest_word t t' v v' d d' (w.0, w.1) (w'.0, w'.1) same in
        and_then (equal_or_collide keccak d d' (inr (inl refl)) (inr (inl refl)) fields.2) λ datas.
          map_both
            (λ tails. (ap₂ ◌∷◌ fields.0 tails.0, ap₂ ◌∷◌ fields.1 tails.1, ap₂ ◌∷◌ datas tails.2))
            (λ c. Collision-cons keccak b b' (Collision-cons keccak d d' c))
            (call_hashes-binding ts ts' vs vs' ds ds' w.2 w'.2 rests)
  call_hashes-binding _ _ _ _ _ _ w w' e = ground arith

  -- The type hash that a message's struct starts with.
  abbrev type_of : Message → ℕ
  type_of (execute to value payload nonce) = execute_typehash
  type_of (batch to value payloads nonce) = batch_typehash
  type_of (rotate new_x new_y nonce) = rotate_typehash
  type_of (personal_sign hash) = personal_sign_typehash

  type_word : (m : Message) → IsU256 (type_of m)
  type_word (execute to value payload nonce) = omega arith
  type_word (batch to value payloads nonce) = omega arith
  type_word (rotate new_x new_y nonce) = omega arith
  type_word (personal_sign hash) = omega arith

  struct-type : (m : Message) → (rest : Bytes) × (struct_buf keccak m ≡ word (type_of m) ++ rest)
  struct-type (execute to value payload nonce) = (_, execute_layout keccak to value payload nonce)
  struct-type (batch to value payloads nonce) =
      (_, batch_layout (keccak (call_hashes keccak to value payloads)) nonce)
  struct-type (rotate new_x new_y nonce) = (_, rotate_layout new_x new_y nonce)
  struct-type (personal_sign hash) = (_, personal_sign_layout hash)

  same_type : (m m' : Message) → struct_buf keccak m ≡ struct_buf keccak m' → type_of m ≡ type_of m'
  same_type m m' e =
      (word-cancel (type_of m) (type_of m') (type_word m) (type_word m')
        (sym (struct-type m).1 ∙ (e ∙ (struct-type m').1))).0

  -- Equal structs hold equal messages, or their parts collide.
  struct-binding :
      (m m' : Message)
      → IsMessage m
      → IsMessage m'
      → struct_buf keccak m ≡ struct_buf keccak m'
      → (m ≡ m') ⊎ Collision keccak (parts keccak m) (parts keccak m')
  struct-binding (execute to value payload n) (execute to' value' payload' n') w w' e =
      let (tos, values, digests, nonces) =
        execute-fields keccak digest_word to to' value value' payload payload' n n' w w' e in
      map_both (λ datas. cc) (λ c. c)
        (equal_or_collide keccak payload payload' (inl refl) (inl refl) digests)
  struct-binding (rotate x y n) (rotate x' y' n') w w' e =
      let (xs, ys, nonces) = rotate-fields x x' y y' n n' w w' e in inl (cc)
  struct-binding (personal_sign h) (personal_sign h') w w' e =
      inl (ap personal_sign (personal_sign-fields h h' w w' e))
  struct-binding (batch to value payloads n) (batch to' value' payloads' n') w w' e =
      let concatenated = call_hashes keccak to value payloads in
      let concatenated' = call_hashes keccak to' value' payloads' in
      let (digests, nonces) =
        batch-fields (keccak concatenated) (keccak concatenated') n n' (digest_word concatenated)
          (digest_word concatenated') w.1 w'.1 e in
      and_then (equal_or_collide keccak concatenated concatenated' (inl refl) (inl refl) digests)
        λ hashes.
          map_both (λ calls i. batch (calls.0 i) (calls.1 i) (calls.2 i) (nonces i))
            (λ c. Collision-cons keccak concatenated concatenated' c)
            (call_hashes-binding to to' value value' payloads payloads' w.0 w'.0 hashes)
  struct-binding m m' w w' e = absurd (omega (arith, same_type m m' e))

  digest-envelope :
      (chain_id account : ℕ) (m : Message)
      → digest_of keccak chain_id account m
        ≡ eip712_envelope keccak chain_id account (keccak (struct_buf keccak m))
  unfolding compute_execute_hash compute_rotate_hash compute_personal_sign_hash
  digest-envelope chain_id account (execute to value payload nonce) = refl
  digest-envelope chain_id account (batch to value payloads nonce) = refl
  digest-envelope chain_id account (rotate new_x new_y nonce) = refl
  digest-envelope chain_id account (personal_sign hash) = refl

  -- If digests are words, then two messages of any kinds, of fields that fit their types, with one
  -- digest are the same message for the same account on the same chain, or two different strings that
  -- the digests hash have one hash.
  pub digest-binding :
      (chain_id chain_id' account account' : ℕ) (m m' : Message)
      → IsU64 chain_id
      → IsU64 chain_id'
      → IsAddress account
      → IsAddress account'
      → IsMessage m
      → IsMessage m'
      → digest_of keccak chain_id account m ≡ digest_of keccak chain_id' account' m'
      → ((chain_id ≡ chain_id') × (account ≡ account') × (m ≡ m'))
        ⊎ Collision keccak (hashed keccak chain_id account m) (hashed keccak chain_id' account' m')
  unfolding eip712_envelope compute_domain_separator
  digest-binding c c' a a' m m' hc hc' ha ha' w w' e =
      let s = struct_buf keccak m in
      let s' = struct_buf keccak m' in
      let d = domain_buf c a in
      let d' = domain_buf c' a' in
      let same_digest : eip712_envelope keccak c a (keccak s)
          ≡ eip712_envelope keccak c' a' (keccak s') =
        sym (digest-envelope c a m) ∙ (e ∙ digest-envelope c' a' m') in
      and_then
        (equal_or_collide keccak (envelope_buf (keccak d) (keccak s))
          (envelope_buf (keccak d') (keccak s')) (inl refl) (inl refl) same_digest)
        λ envelopes.
          let (domains, structs) =
            envelope-fields (keccak d) (keccak d') (keccak s) (keccak s') (digest_word d)
              (digest_word d') (digest_word s) (digest_word s') envelopes in
          and_then (equal_or_collide keccak d d' (inr (inl refl)) (inr (inl refl)) domains) λ ds.
            and_then
              (equal_or_collide keccak s s' (inr (inr (inl refl))) (inr (inr (inl refl))) structs)
              λ ss.
                let (chains, accounts) = domain-fields c c' a a' hc hc' ha ha' ds in
                map_both (λ same. (chains, accounts, same))
                  (λ k.
                    Collision-cons keccak _ _
                      (Collision-cons keccak _ _ (Collision-cons keccak _ _ k)))
                  (struct-binding m m' w w' ss)
