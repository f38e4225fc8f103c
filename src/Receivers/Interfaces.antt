-- ===== src/Receivers/Interfaces.antt =====
-- The interfaces that `supports_interface` claims.
use stylus_mobile_native_aut.Base.{refl, ◌≡◌, ◌↔◌, ◌⊎◌, true, [], ◌∷◌, arith}
use stylus_mobile_native_aut.Bytes.{Bytes}
use stylus_mobile_native_aut.Validators.{eip1271_magic}
use stylus_mobile_native_aut.Receivers.{bytes_eq, supports_interface, erc721_received_magic}

pub bytes_eq_iff : (xs ys : Bytes) → (bytes_eq xs ys ≡ true) ↔ (xs ≡ ys)
bytes_eq_iff [] [] = ground arith
bytes_eq_iff [] (y ∷ ys) = ground arith
bytes_eq_iff (x ∷ xs) [] = ground arith
bytes_eq_iff (x ∷ xs) (y ∷ ys) = ground (arith, bytes_eq_iff xs ys)

-- `supportsInterface` answers true for the ids of ERC-165, EIP-1271, the ERC-721 receiver and the
-- ERC-1155 receiver, and for no other.
pub supports_interface_iff :
    (id : Bytes)
    → (supports_interface id ≡ true)
      ↔ (id ≡ 0x01 ∷ 0xff ∷ 0xc9 ∷ 0xa7 ∷ [])
        ⊎ (id ≡ eip1271_magic)
        ⊎ (id ≡ erc721_received_magic)
        ⊎ (id ≡ 0x4e ∷ 0x23 ∷ 0x12 ∷ 0xe0 ∷ [])
unfolding supports_interface
supports_interface_iff id = grind (arith, bytes_eq_iff)

pub bytes_eq_refl : (xs : Bytes) → bytes_eq xs xs ≡ true
bytes_eq_refl [] = refl
bytes_eq_refl (x ∷ xs) = ground (arith, bytes_eq_refl xs)
