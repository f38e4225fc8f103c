-- ===== src/Examples.antt =====
-- A concrete chain for the examples: a toy hash in place of keccak-256, a toy verifier at 0x100, the
-- generator of P-256 as the owner's key, a callee that calls the account back,
-- and a callee that reverts.
pub mod Transactions
pub mod Signing
pub mod Digests
pub mod Keccak
pub mod Tooling
pub mod Hex
pub mod Cast
pub mod Devnode
pub mod Scenarios
pub mod Commands
pub mod UnitTests
use stylus_mobile_native_aut.Base.{
  ℕ, ◌*◌, ◌%◌, ◌^◌, ◌≡◌, refl, List, [], ◌∷◌, ◌++◌, Option, none, some, ok, false, true, get_elem?,
  ◌==◌, if◌then◌else◌, arith,
}
use stylus_mobile_native_aut.Bytes.{Bytes, IsU256, from_be, zeros, to_be_bytes, from_be_bytes}
use stylus_mobile_native_aut.Host.{Host}
use stylus_mobile_native_aut.P256.{
  is_valid_pubkey, is_valid_pubkey_component, is_on_curve, is_valid_scalar, is_low_s,
}
use stylus_mobile_native_aut.Signature.{
  validate_p256_signature, verify_p256_precompile, precompile_staticcall, precompile_input,
}
use stylus_mobile_native_aut.Signature.Malleable.{encode, Accepted, Accepted-iff}
use stylus_mobile_native_aut.Machine.{Machine, returned, reverted}
use stylus_mobile_native_aut.Chain.{Request, Code, Program, call_back, finish}
use stylus_mobile_native_aut.Chain.Invariant.{IsSound}

-- Digests are the bytes read in base 7, modulo 2^256.
abbrev pub toy_keccak : Bytes → ℕ
toy_keccak m = from_be 7 m % 2 ^ 256

pub toy_keccak_word : (m : Bytes) → IsU256 (toy_keccak m)
toy_keccak_word m = omega arith

-- The verifier accepts if the last bytes of `r` and of the key's `x` agree.
abbrev pub toy_verifier : ℕ → Bytes → Option Bytes
toy_verifier address input = elim (get_elem? input 63) [
  | none ↦ none
  | some a ↦ elim (get_elem? input 127) [
    | none ↦ none
    | some b ↦ if a == b then some (zeros 31 ++ (1 ∷ [])) else none
  ]
]

abbrev pub devnet : Host
devnet = record {
  keccak = toy_keccak;
  staticcall = toy_verifier;
  chain_id = 412346;
  contract_address = 0xacc;
}

-- The generator of P-256.
abbrev pub gx : ℕ
gx = 0x6B17D1F2E12C4247F8BCE6E563A440F277037D812DEB33A0F4A13945D898C296

abbrev pub gy : ℕ
gy = 0x4FE342E2FE1A7F9B8EE7EB4A7C0F9E162BCE33576B315ECECBB6406837BF51F5

abbrev pub deployed : Machine
deployed = record {
  account = record { owner_x = gx; owner_y = gy; nonce = 4; in_call = false };
  journal = [];
}

pub generator-usable : is_valid_pubkey gx gy ≡ true
unfolding is_valid_pubkey is_valid_pubkey_component is_on_curve from_be_bytes
generator-usable = refl

pub deployed-IsSound : IsSound deployed.account
deployed-IsSound = record {
  guard_free = refl;
  usable_key = generator-usable;
  nonce_word = omega arith;
}

abbrev pub signature : Bytes
signature = encode 0x96 1

-- Address 0xbad calls the account back with the same request; any other address just returns.
abbrev pub contracts : Code devnet
contracts to value payload m =
    if to == 0xbad
    then call_back (Request.execute 0xbad value payload 5 signature) (λ _ _ _ k. (returned [], k))
        (λ _. finish (returned payload))
    else if to == 0xdead
    then finish (reverted (9 ∷ []))
    else finish (returned payload)

-- This signature verifies for every digest.
pub signature-valid : (hash : ℕ) → validate_p256_signature devnet hash signature gx gy ≡ ok tt
unfolding validate_p256_signature to_be_bytes is_valid_scalar from_be_bytes is_low_s
    verify_p256_precompile precompile_staticcall precompile_input
signature-valid hash = refl

pub signature-Accepted : (hash : ℕ) → Accepted devnet hash signature gx gy
signature-Accepted hash = (Accepted-iff devnet hash signature gx gy).0 (signature-valid hash)
