-- ===== src/Receivers.antt =====
-- The methods of `P256Account` that accept tokens, ether and unknown calls, and the ERC-165 answer
-- (contracts/stylus/p256-account/src/lib.rs). None of them reads or writes the storage.
pub mod Interfaces
use stylus_mobile_native_aut.Base.{ℕ, Bool, true, false, List, [], ◌∷◌, ◌&&◌, ◌||◌, ◌==◌}
use stylus_mobile_native_aut.Bytes.{Bytes}
use stylus_mobile_native_aut.Errors.{unknown_selector}
use stylus_mobile_native_aut.Validators.{eip1271_magic}
use stylus_mobile_native_aut.Machine.{Action, pure, raise}

abbrev pub erc721_received_magic : Bytes
erc721_received_magic = 0x15 ∷ 0x0b ∷ 0x7a ∷ 0x02 ∷ []

abbrev pub erc1155_received_magic : Bytes
erc1155_received_magic = 0xf2 ∷ 0x3a ∷ 0x6e ∷ 0x61 ∷ []

abbrev pub erc1155_batch_received_magic : Bytes
erc1155_batch_received_magic = 0xbc ∷ 0x19 ∷ 0x7c ∷ 0x81 ∷ []

unfoldable pub on_erc721_received : ℕ → ℕ → ℕ → Bytes → Action Bytes
on_erc721_received operator from token_id payload = pure erc721_received_magic

unfoldable pub on_erc1155_received : ℕ → ℕ → ℕ → ℕ → Bytes → Action Bytes
on_erc1155_received operator from id value payload = pure erc1155_received_magic

unfoldable pub on_erc1155_batch_received : ℕ → ℕ → List ℕ → List ℕ → Bytes → Action Bytes
on_erc1155_batch_received operator from ids values payload = pure erc1155_batch_received_magic

-- `==` on `[u8; 4]`.
abbrev pub bytes_eq : Bytes → Bytes → Bool
bytes_eq [] [] = true
bytes_eq [] (b ∷ bs) = false
bytes_eq (a ∷ as_) [] = false
bytes_eq (a ∷ as_) (b ∷ bs) = (a == b) && bytes_eq as_ bs

unfoldable pub supports_interface : Bytes → Bool
supports_interface id =
    bytes_eq id (0x01 ∷ 0xff ∷ 0xc9 ∷ 0xa7 ∷ [])
    || (bytes_eq id eip1271_magic
        || (bytes_eq id erc721_received_magic || bytes_eq id (0x4e ∷ 0x23 ∷ 0x12 ∷ 0xe0 ∷ [])))

unfoldable pub fallback : Bytes → Action Bytes
fallback input = raise unknown_selector

unfoldable pub receive : Action (Unit {0})
receive = pure tt
