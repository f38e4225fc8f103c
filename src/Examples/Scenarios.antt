-- ===== src/Examples/Scenarios.antt =====
-- The scenarios with two concrete keys: the generator of P-256 and its mirror image.
use stylus_mobile_native_aut.Base.{ℕ, ◌-◌, ◌≡◌, refl, ok}
use stylus_mobile_native_aut.Bytes.{to_be_bytes, from_be_bytes}
use stylus_mobile_native_aut.P256.{is_valid_scalar, is_low_s}
use stylus_mobile_native_aut.P256.Values.{prime}
use stylus_mobile_native_aut.P256.Curve.{is_valid_pubkey-reflected}
use stylus_mobile_native_aut.Signature.{
  validate_p256_signature, verify_p256_precompile, precompile_staticcall, precompile_input,
}
use stylus_mobile_native_aut.Signature.Malleable.{Accepted-iff}
use stylus_mobile_native_aut.Harness.Scenarios.{Keypair}
use stylus_mobile_native_aut.Harness.Scenarios.Steps.{CanSign}
use stylus_mobile_native_aut.Examples.{
  devnet, gx, gy, generator-usable, signature, signature-Accepted,
}

abbrev pub first_key : Keypair
first_key = record { pub_x = gx; pub_y = gy; sign = λ hash. signature }

abbrev second_key : Keypair
second_key = record { pub_x = gx; pub_y = prime - gy; sign = λ hash. signature }

pub first_key-CanSign : CanSign devnet first_key
first_key-CanSign = record { usable = generator-usable; accepts = signature-Accepted }

mirrored-valid : (hash : ℕ) → validate_p256_signature devnet hash signature gx (prime - gy) ≡ ok tt
unfolding validate_p256_signature to_be_bytes is_valid_scalar from_be_bytes is_low_s
    verify_p256_precompile precompile_staticcall precompile_input
mirrored-valid hash = refl

second_key-CanSign : CanSign devnet second_key
second_key-CanSign = record {
  usable = is_valid_pubkey-reflected gx gy generator-usable;
  accepts = λ hash. (Accepted-iff devnet hash signature gx (prime - gy)).0 (mirrored-valid hash);
}
