-- ===== src/Eip712/Layout.antt =====
-- Each buffer is the concatenation that SPEC.md states; no copy goes out of bounds.
use stylus_mobile_native_aut.Base.{ℕ, ◌≡◌, refl, ◌∷◌, ◌++◌}
use stylus_mobile_native_aut.Bytes.{Bytes, to_be_bytes, zeros}
use stylus_mobile_native_aut.Eip712.{
  word, domain_buf, domain_typehash, name_hash, version_hash, envelope_buf, execute_buf,
  execute_typehash, rotate_buf, rotate_typehash, batch_buf, batch_typehash, call_buf, call_typehash,
  personal_sign_buf, personal_sign_typehash,
}

pub envelope_layout :
    (domain struct_hash : ℕ)
    → envelope_buf domain struct_hash ≡ 0x19 ∷ 0x01 ∷ (word domain ++ word struct_hash)
unfolding envelope_buf to_be_bytes
envelope_layout domain struct_hash = refl

pub domain_layout :
    (chain_id account : ℕ)
    → domain_buf chain_id account
      ≡ word domain_typehash
        ++ (word name_hash
            ++ (word version_hash
                ++ ((zeros 24 ++ to_be_bytes 8 chain_id) ++ (zeros 12 ++ to_be_bytes 20 account))))
unfolding domain_buf to_be_bytes
domain_layout chain_id account = refl

pub personal_sign_layout :
    (hash : ℕ) → personal_sign_buf hash ≡ word personal_sign_typehash ++ word hash
unfolding personal_sign_buf to_be_bytes
personal_sign_layout hash = refl

pub rotate_layout :
    (new_x new_y nonce : ℕ)
    → rotate_buf new_x new_y nonce
      ≡ word rotate_typehash ++ (word new_x ++ (word new_y ++ word nonce))
unfolding rotate_buf to_be_bytes
rotate_layout new_x new_y nonce = refl

pub batch_layout :
    (calls_hash nonce : ℕ)
    → batch_buf calls_hash nonce ≡ word batch_typehash ++ (word calls_hash ++ word nonce)
unfolding batch_buf to_be_bytes
batch_layout calls_hash nonce = refl

pub execute_layout :
    (keccak : Bytes → ℕ) (to value : ℕ) (payload : Bytes) (nonce : ℕ)
    → execute_buf keccak to value payload nonce
      ≡ word execute_typehash
        ++ ((zeros 12 ++ to_be_bytes 20 to)
            ++ (word value ++ (word (keccak payload) ++ word nonce)))
unfolding execute_buf to_be_bytes
execute_layout keccak to value payload nonce = refl

pub call_layout :
    (keccak : Bytes → ℕ) (to value : ℕ) (payload : Bytes)
    → call_buf keccak to value payload
      ≡ word call_typehash
        ++ ((zeros 12 ++ to_be_bytes 20 to) ++ (word value ++ word (keccak payload)))
unfolding call_buf to_be_bytes
call_layout keccak to value payload = refl
