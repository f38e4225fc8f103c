-- ===== src/Chain/Answers.antt =====
-- What the requests that need no signature are answered.
use stylus_mobile_native_aut.Base.{ℕ, ◌≡◌, ◌⊎◌, inl, inr, true, false, List, [], ◌∷◌, Bool-cases}
use stylus_mobile_native_aut.Bytes.{Bytes}
use stylus_mobile_native_aut.Host.{Host}
use stylus_mobile_native_aut.Errors.{unknown_selector}
use stylus_mobile_native_aut.Signature.Malleable.{Accepted, Accepted-iff}
use stylus_mobile_native_aut.Validators.{eip1271_magic}
use stylus_mobile_native_aut.Validators.Decided.{signature-Decided}
use stylus_mobile_native_aut.Receivers
use stylus_mobile_native_aut.Receivers.{
  erc721_received_magic, erc1155_received_magic, erc1155_batch_received_magic, supports_interface,
}
use stylus_mobile_native_aut.Receivers.Interfaces.{supports_interface_iff}
use stylus_mobile_native_aut.Machine.{P256Account, Machine, Outbound}
use stylus_mobile_native_aut.Account
use stylus_mobile_native_aut.Chain.{Request, Reply, nothing, word, flag, bytes, failed, serve}
use stylus_mobile_native_aut.Chain.Guard.{IsAuthorising}
use stylus_mobile_native_aut.Chain.Views.{challenge, is_valid_signature_answer}

-- The ids of ERC-165, EIP-1271, the ERC-721 receiver and the ERC-1155 receiver.
abbrev pub IsClaimed : Bytes → Type 0
IsClaimed id =
    (id ≡ 0x01 ∷ 0xff ∷ 0xc9 ∷ 0xa7 ∷ [])
    ⊎ (id ≡ eip1271_magic)
    ⊎ (id ≡ erc721_received_magic)
    ⊎ (id ≡ 0x4e ∷ 0x23 ∷ 0x12 ∷ 0xe0 ∷ [])

-- `Answer q r`: the account `a` answers `r` to the request `q`.
pub data Answer (host : Host) (a : P256Account) : Request → Reply → Type 0 where
  key_x : Answer host a Request.owner_x (word a.owner_x)
  key_y : Answer host a Request.owner_y (word a.owner_y)
  next_nonce : Answer host a Request.nonce (word a.nonce)
  verified :
      {hash : ℕ} {sig : Bytes}
      → Accepted host hash sig a.owner_x a.owner_y
      → Answer host a (Request.verify hash sig) (flag true)
  not_verified :
      {hash : ℕ} {sig : Bytes}
      → ¬ Accepted host hash sig a.owner_x a.owner_y
      → Answer host a (Request.verify hash sig) (flag false)
  signed :
      {hash : ℕ} {sig : Bytes}
      → Accepted host (challenge host hash) sig a.owner_x a.owner_y
      → Answer host a (Request.is_valid_signature hash sig) (bytes eip1271_magic)
  not_signed :
      {hash : ℕ} {sig : Bytes}
      → ¬ Accepted host (challenge host hash) sig a.owner_x a.owner_y
      → Answer host a (Request.is_valid_signature hash sig) (bytes (0 ∷ 0 ∷ 0 ∷ 0 ∷ []))
  erc721_taken :
      {operator from token : ℕ} {payload : Bytes}
      → Answer host a
          (Request.on_erc721_received operator from token payload)
          (bytes erc721_received_magic)
  erc1155_taken :
      {operator from token value : ℕ} {payload : Bytes}
      → Answer host a
          (Request.on_erc1155_received operator from token value payload)
          (bytes erc1155_received_magic)
  erc1155_batch_taken :
      {operator from : ℕ} {tokens values : List ℕ} {payload : Bytes}
      → Answer host a
          (Request.on_erc1155_batch_received operator from tokens values payload)
          (bytes erc1155_batch_received_magic)
  claimed : {id : Bytes} → IsClaimed id → Answer host a (Request.interface_query id) (flag true)
  not_claimed :
      {id : Bytes} → ¬ IsClaimed id → Answer host a (Request.interface_query id) (flag false)
  refused : {input : Bytes} → Answer host a (Request.unknown input) (failed unknown_selector)
  funded : Answer host a Request.receive nothing

module _ (host : Host) (out : Outbound) (m : Machine) where
  verify-Answer :
      (hash : ℕ) (sig : Bytes)
      → Answer host m.account
          (Request.verify hash sig)
          (serve host out (Request.verify hash sig) m).0
  unfolding serve Account.verify
  verify-Answer hash sig =
      let key = Accepted-iff host hash sig m.account.owner_x m.account.owner_y in
      elim (signature-Decided host hash sig m.account.owner_x m.account.owner_y) [
        | inl v ↦ rw v (verified (key.0 v))
        | inr (e, v) ↦ rw v (not_verified (λ a. cc (key.1 a)))
      ]

  signature-Answer :
      (hash : ℕ) (sig : Bytes)
      → Answer host m.account
          (Request.is_valid_signature hash sig)
          (serve host out (Request.is_valid_signature hash sig) m).0
  signature-Answer hash sig = elim (is_valid_signature_answer host out hash sig m) [
    | inl (a, e) ↦ rw e (signed a)
    | inr (n, e) ↦ rw e (not_signed n)
  ]

  interface-Answer :
      (id : Bytes)
      → Answer host m.account
          (Request.interface_query id)
          (serve host out (Request.interface_query id) m).0
  unfolding serve
  interface-Answer id = elim (Bool-cases (supports_interface id)) [
    | inl h ↦ rw h (claimed ((supports_interface_iff id).0 h))
    | inr h ↦ rw h (not_claimed (λ c. cc ((supports_interface_iff id).1 c)))
  ]

  -- Every request that needs no signature is answered as `Answer` says, whether or not the guard is
  -- set: the getters by the storage, `verify` and `is_valid_signature` by the signature check, the
  -- token hooks by their magic values, unknown calldata by `UnknownSelector`.
  pub serve-Answer :
      (q : Request) → ¬ IsAuthorising q → Answer host m.account q (serve host out q m).0
  unfolding serve Account.owner_x Account.owner_y Account.nonce Receivers.on_erc721_received
      Receivers.on_erc1155_received Receivers.on_erc1155_batch_received Receivers.fallback
      Receivers.receive
  serve-Answer (Request.execute to value payload n sig) a = absurd (a tt)
  serve-Answer (Request.execute_batch to value payloads n sig) a = absurd (a tt)
  serve-Answer (Request.rotate_owner new_x new_y n sig) a = absurd (a tt)
  serve-Answer Request.owner_x a = key_x
  serve-Answer Request.owner_y a = key_y
  serve-Answer Request.nonce a = next_nonce
  serve-Answer (Request.verify hash sig) a = verify-Answer hash sig
  serve-Answer (Request.is_valid_signature hash sig) a = signature-Answer hash sig
  serve-Answer (Request.on_erc721_received _ _ _ _) a = erc721_taken
  serve-Answer (Request.on_erc1155_received _ _ _ _ _) a = erc1155_taken
  serve-Answer (Request.on_erc1155_batch_received _ _ _ _ _) a = erc1155_batch_taken
  serve-Answer (Request.interface_query id) a = interface-Answer id
  serve-Answer (Request.unknown input) a = refused
  serve-Answer Request.receive a = funded
