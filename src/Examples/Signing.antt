-- ===== src/Examples/Signing.antt =====
-- Keys, signatures and shapes at concrete values.
use stylus_mobile_native_aut.Base.{
  ℕ, ◌-◌, ◌/◌, ◌≤◌, ◌<◌, ◌≡◌, ◌↔◌, true, refl, ◌++◌, [], ◌∷◌, some, none, ltb, if◌then◌else◌, ok,
  err, arith,
}
use stylus_mobile_native_aut.Bytes.{Bytes, zeros, to_be_bytes}
use stylus_mobile_native_aut.Eip712.{word}
use stylus_mobile_native_aut.Harness.Keys.{Crate, sign, sign-Accepted}
use stylus_mobile_native_aut.Errors.{high_s}
use stylus_mobile_native_aut.P256.{is_valid_pubkey}
use stylus_mobile_native_aut.P256.Values.{prime, order}
use stylus_mobile_native_aut.P256.Curve.{OnCurve, is_valid_pubkey_iff, is_valid_pubkey-reflected}
use stylus_mobile_native_aut.Signature.{validate_p256_signature}
use stylus_mobile_native_aut.Signature.Verdict.{
  Verdict, PrecompileAccepts, validate_p256_signature-Verdict,
}
use stylus_mobile_native_aut.Signature.Malleable.{Accepted, encode, mirrored_high}
use stylus_mobile_native_aut.Validators.{validate_batch_shape}
use stylus_mobile_native_aut.Validators.Decisions.{validate_batch_shape_iff}
use stylus_mobile_native_aut.Examples.{devnet, signature, signature-valid, gx, gy, generator-usable}

validate_p256_signature-Verdict_example :
    Verdict devnet 99 signature gx gy (validate_p256_signature devnet 99 signature gx gy)
validate_p256_signature-Verdict_example = validate_p256_signature-Verdict devnet 99 signature gx gy

mirrored_high_example :
    validate_p256_signature devnet 99 (encode 0x96 (order - 1)) gx gy ≡ err high_s
mirrored_high_example =
    mirrored_high devnet 99 0x96 1 gx gy (omega arith) (omega arith) (signature-valid 99)

is_valid_pubkey_iff_example :
    (is_valid_pubkey gx gy ≡ true)
    ↔ (0 < gx) × (gx < prime) × (0 < gy) × (gy < prime) × OnCurve gx gy
is_valid_pubkey_iff_example = is_valid_pubkey_iff gx gy

is_valid_pubkey-reflected_example : is_valid_pubkey gx (prime - gy) ≡ true
is_valid_pubkey-reflected_example = is_valid_pubkey-reflected gx gy generator-usable

abbrev many : ℕ
many = 33

validate_batch_shape_iff_example :
    (validate_batch_shape many many many ≡ ok tt)
    ↔ (0 < many) × (many ≤ 32) × (many ≡ many) × (many ≡ many)
validate_batch_shape_iff_example = validate_batch_shape_iff many many many

-- A crate whose signatures have the largest `s`, which `normalize_s` turns into 1.
abbrev pub crate : Crate
crate = record {
  SigningKey = Unit {0};
  encoded_point = λ k. 0x04 ∷ (word gx ++ word gy);
  sign_prehash = λ k hash. some (0x96, order - 1);
  normalize_s = λ sig. if ltb (order / 2) sig.1 then some (sig.0, order - sig.1) else none;
}

pub toy_accepts : (hash s : ℕ) → PrecompileAccepts devnet hash 0x96 s gx gy
unfolding to_be_bytes
toy_accepts hash s = (zeros 31 ++ (1 ∷ []), refl, refl, refl)

sign-Accepted_example :
    (sig : Bytes) × (sign crate tt (word 7) ≡ some sig) × Accepted devnet 7 sig gx gy
sign-Accepted_example =
    sign-Accepted devnet crate (λ r s. refl) tt 7 0x96 (order - 1) gx gy refl
      (omega arith, omega arith) (omega arith, omega arith) (toy_accepts 7 (order - 1))
      (toy_accepts 7 1)
