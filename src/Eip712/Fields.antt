-- ===== src/Eip712/Fields.antt =====
-- A filled buffer determines the values that were written into it.
use stylus_mobile_native_aut.Base.{
  ℕ, ◌^◌, ◌<◌, ◌≡◌, refl, sym, ◌∙◌, [], ◌∷◌, ◌++◌, append_assoc, append-cancel, arith,
}
use stylus_mobile_native_aut.Bytes.{Bytes, to_be_bytes, zeros, IsU256, IsU64, IsAddress}
use stylus_mobile_native_aut.Bytes.RoundTrip.{length-to_be_bytes, to_be_bytes-injective}
use stylus_mobile_native_aut.Eip712.{
  word, execute_buf, rotate_buf, batch_buf, personal_sign_buf, call_buf, envelope_buf, domain_buf,
  domain_typehash, name_hash, version_hash, batch_typehash, execute_typehash, call_typehash,
  personal_sign_typehash,
}
use stylus_mobile_native_aut.Eip712.Layout.{
  envelope_layout, domain_layout, personal_sign_layout, rotate_layout, batch_layout, execute_layout,
  call_layout,
}

chunk-cancel :
    (k a b : ℕ) {xs ys : Bytes}
    → a < 256 ^ k
    → b < 256 ^ k
    → to_be_bytes k a ++ xs ≡ to_be_bytes k b ++ ys
    → (a ≡ b) × (xs ≡ ys)
chunk-cancel k a b ha hb e =
    let (same, rest) =
      append-cancel (to_be_bytes k a) (to_be_bytes k b)
        (length-to_be_bytes k a ∙ sym (length-to_be_bytes k b)) e in
    (to_be_bytes-injective k a b ha hb same, rest)

pub word-cancel :
    (a b : ℕ) {xs ys : Bytes}
    → IsU256 a
    → IsU256 b
    → word a ++ xs ≡ word b ++ ys
    → (a ≡ b) × (xs ≡ ys)
word-cancel a b = chunk-cancel 32 a b

pub word-injective : (a b : ℕ) → IsU256 a → IsU256 b → word a ≡ word b → a ≡ b
word-injective a b = to_be_bytes-injective 32 a b

padded-cancel :
    (pad k a b : ℕ) {xs ys : Bytes}
    → a < 256 ^ k
    → b < 256 ^ k
    → (zeros pad ++ to_be_bytes k a) ++ xs ≡ (zeros pad ++ to_be_bytes k b) ++ ys
    → (a ≡ b) × (xs ≡ ys)
padded-cancel pad k a b {xs} {ys} ha hb e =
    let bare : to_be_bytes k a ++ xs ≡ to_be_bytes k b ++ ys =
      (append-cancel (zeros pad) (zeros pad) refl (
        sym (append_assoc (zeros pad) (to_be_bytes k a) xs)
        ∙ (e ∙ append_assoc (zeros pad) (to_be_bytes k b) ys))).1 in
    chunk-cancel k a b ha hb bare

pub envelope-fields :
    (d d' s s' : ℕ)
    → IsU256 d
    → IsU256 d'
    → IsU256 s
    → IsU256 s'
    → envelope_buf d s ≡ envelope_buf d' s'
    → (d ≡ d') × (s ≡ s')
envelope-fields d d' s s' hd hd' hs hs' e =
    let bare : word d ++ word s ≡ word d' ++ word s' =
      (append-cancel (0x19 ∷ 0x01 ∷ []) (0x19 ∷ 0x01 ∷ []) refl
        (sym (envelope_layout d s) ∙ (e ∙ envelope_layout d' s'))).1 in
    let (domains, structs) = word-cancel d d' hd hd' bare in
    (domains, word-injective s s' hs hs' structs)

pub domain-fields :
    (c c' a a' : ℕ)
    → IsU64 c
    → IsU64 c'
    → IsAddress a
    → IsAddress a'
    → domain_buf c a ≡ domain_buf c' a'
    → (c ≡ c') × (a ≡ a')
domain-fields c c' a a' hc hc' ha ha' e =
    let (_, after_type) =
      word-cancel domain_typehash domain_typehash (omega arith) (omega arith)
        (sym (domain_layout c a) ∙ (e ∙ domain_layout c' a')) in
    let (_, after_name) = word-cancel name_hash name_hash (omega arith) (omega arith) after_type in
    let (_, after_version) =
      word-cancel version_hash version_hash (omega arith) (omega arith) after_name in
    let (chains, after_chain) = padded-cancel 24 8 c c' hc hc' after_version in
    let bare = (append-cancel (zeros 12) (zeros 12) refl after_chain).1 in
    (chains, to_be_bytes-injective 20 a a' ha ha' bare)

pub rotate-fields :
    (x x' y y' n n' : ℕ)
    → IsU256 x × IsU256 y × IsU256 n
    → IsU256 x' × IsU256 y' × IsU256 n'
    → rotate_buf x y n ≡ rotate_buf x' y' n'
    → (x ≡ x') × (y ≡ y') × (n ≡ n')
rotate-fields x x' y y' n n' h h' e =
    let (_, after_type) =
      word-cancel _ _ (omega arith) (omega arith)
        (sym (rotate_layout x y n) ∙ (e ∙ rotate_layout x' y' n')) in
    let (same_x, after_x) = word-cancel x x' h.0 h'.0 after_type in
    let (same_y, after_y) = word-cancel y y' h.1 h'.1 after_x in
    (same_x, same_y, word-injective n n' h.2 h'.2 after_y)

pub batch-fields :
    (c c' n n' : ℕ)
    → IsU256 c
    → IsU256 c'
    → IsU256 n
    → IsU256 n'
    → batch_buf c n ≡ batch_buf c' n'
    → (c ≡ c') × (n ≡ n')
batch-fields c c' n n' hc hc' hn hn' e =
    let (_, after_type) =
      word-cancel batch_typehash batch_typehash (omega arith) (omega arith)
        (sym (batch_layout c n) ∙ (e ∙ batch_layout c' n')) in
    let (calls, after_calls) = word-cancel c c' hc hc' after_type in
    (calls, word-injective n n' hn hn' after_calls)

pub personal_sign-fields :
    (h h' : ℕ) → IsU256 h → IsU256 h' → personal_sign_buf h ≡ personal_sign_buf h' → h ≡ h'
personal_sign-fields h h' b b' e =
    word-injective h h' b b'
      (word-cancel personal_sign_typehash personal_sign_typehash (omega arith) (omega arith)
        (sym (personal_sign_layout h) ∙ (e ∙ personal_sign_layout h'))).1

module _ (keccak : Bytes → ℕ) (digest_word : (m : Bytes) → IsU256 (keccak m)) where
  pub execute-fields :
      (to to' value value' : ℕ) (payload payload' : Bytes) (n n' : ℕ)
      → IsAddress to × IsU256 value × IsU256 n
      → IsAddress to' × IsU256 value' × IsU256 n'
      → execute_buf keccak to value payload n ≡ execute_buf keccak to' value' payload' n'
      → (to ≡ to') × (value ≡ value') × (keccak payload ≡ keccak payload') × (n ≡ n')
  execute-fields to to' value value' payload payload' n n' h h' e =
      let (_, after_type) =
        word-cancel execute_typehash execute_typehash (omega arith) (omega arith) (
          sym (execute_layout keccak to value payload n)
          ∙ (e ∙ execute_layout keccak to' value' payload' n')) in
      let (tos, after_to) = padded-cancel 12 20 to to' h.0 h'.0 after_type in
      let (values, after_value) = word-cancel value value' h.1 h'.1 after_to in
      let (datas, after_data) =
        word-cancel (keccak payload) (keccak payload') (digest_word payload) (digest_word payload')
          after_value in
      (tos, values, datas, word-injective n n' h.2 h'.2 after_data)

  pub call-fields :
      (to to' value value' : ℕ) (payload payload' : Bytes)
      → IsAddress to × IsU256 value
      → IsAddress to' × IsU256 value'
      → call_buf keccak to value payload ≡ call_buf keccak to' value' payload'
      → (to ≡ to') × (value ≡ value') × (keccak payload ≡ keccak payload')
  call-fields to to' value value' payload payload' h h' e =
      let (_, after_type) = word-cancel call_typehash call_typehash (omega arith) (omega arith) (
        sym (call_layout keccak to value payload) ∙ (e ∙ call_layout keccak to' value' payload')) in
      let (tos, after_to) = padded-cancel 12 20 to to' h.0 h'.0 after_type in
      let (values, after_value) = word-cancel value value' h.1 h'.1 after_to in
      (
        tos,
        values,
        word-injective (keccak payload) (keccak payload') (digest_word payload)
            (digest_word payload') after_value,
      )
