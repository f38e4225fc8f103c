-- ===== src/Host.antt =====
-- What the account calls and does not implement: keccak-256 (`stylus_sdk::crypto::keccak`), the
-- static call of the RIP-7212 precompile at 0x100, and the chain's answers about the execution.
use stylus_mobile_native_aut.Base.{ℕ, ◌<◌, ◌^◌, Option}
use stylus_mobile_native_aut.Bytes.{Bytes}

pub record Host : Type 0 where
  pub keccak : Bytes → ℕ
  -- `RawCall::new_static().call(P256_PRECOMPILE, input).ok()`
  pub staticcall : ℕ → Bytes → Option Bytes
  -- `self.vm().chain_id()` and `self.vm().contract_address()`
  pub chain_id : ℕ
  pub contract_address : ℕ

-- Documented behaviour: a keccak-256 digest is 32 bytes long, a chain id is a `u64`, and an address
-- is 20 bytes long.
pub record IsHost (host : Host) : Type 0 where
  pub keccak_word : (m : Bytes) → host.keccak m < 2 ^ 256
  pub chain_id_word : host.chain_id < 2 ^ 64
  pub address_word : host.contract_address < 2 ^ 160
