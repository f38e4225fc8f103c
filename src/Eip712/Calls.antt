-- ===== src/Eip712/Calls.antt =====
-- The digest of a batch whose three arrays have one length, by the buffers of `compute_batch_hash`.
use stylus_mobile_native_aut.Base.{
  ℕ, ◌≡◌, List, [], ◌∷◌, ◌++◌, append_assoc, append-nil, some, length, arith, ap, ◌∙◌,
}
use stylus_mobile_native_aut.Bytes.{Bytes}
use stylus_mobile_native_aut.Eip712.{
  word, call_buf, concatenate_calls, compute_batch_hash, eip712_envelope, batch_buf,
}

module _ (keccak : Bytes → ℕ) where
  -- What the loop concatenates.
  abbrev pub call_hashes : List ℕ → List ℕ → List Bytes → Bytes
  call_hashes (to ∷ tos) (value ∷ values) (payload ∷ datas) =
      word (keccak (call_buf keccak to value payload)) ++ call_hashes tos values datas
  call_hashes _ _ _ = []

  concatenate_calls_lem :
      (to value : List ℕ) (payloads : List Bytes) (acc : Bytes)
      → length value ≡ length to
      → length payloads ≡ length to
      → concatenate_calls keccak to value payloads acc ≡ some (acc ++ call_hashes to value payloads)
  unfolding concatenate_calls
  concatenate_calls_lem [] value payloads acc e f = rw append-nil
  concatenate_calls_lem (t ∷ ts) [] payloads acc e f = absurd (omega arith)
  concatenate_calls_lem (t ∷ ts) (v ∷ vs) [] acc e f = absurd (omega arith)
  concatenate_calls_lem (t ∷ ts) (v ∷ vs) (d ∷ ds) acc e f =
      let digest = word (keccak (call_buf keccak t v d)) in
      concatenate_calls_lem ts vs ds (acc ++ digest) (omega arith) (omega arith)
      ∙ ap some (append_assoc acc digest (call_hashes ts vs ds))

  -- The digest over the hashes of the calls.
  abbrev pub batch_digest : ℕ → ℕ → List ℕ → List ℕ → List Bytes → ℕ → ℕ
  batch_digest chain_id account to value payloads nonce =
      eip712_envelope keccak chain_id account
        (keccak (batch_buf (keccak (call_hashes to value payloads)) nonce))

  -- For three arrays of one length `compute_batch_hash` does not panic.
  pub compute_batch_hash-batch_digest :
      (chain_id account : ℕ) (to value : List ℕ) (payloads : List Bytes) (nonce : ℕ)
      → length value ≡ length to
      → length payloads ≡ length to
      → compute_batch_hash keccak chain_id account to value payloads nonce
        ≡ some (batch_digest chain_id account to value payloads nonce)
  unfolding compute_batch_hash
  compute_batch_hash-batch_digest chain_id account to value payloads nonce e f =
      rw (concatenate_calls_lem to value payloads [] e f, compute_batch_hash)
