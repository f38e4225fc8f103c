-- ===== src/Signature/Verdict.antt =====
-- What the signature check accepts, and which error each rejected signature gets.
use stylus_mobile_native_aut.Base.{
  ℕ, ◌/◌, ◌%◌, ◌≤◌, ◌<◌, ◌≡◌, ◌≢◌, refl, ◌↔◌, inl, inr, true, false, ok, err, some, none, length,
  get_elem?, ◌++◌, arith, Bool-cases, Bool, ==→eq, eq→==, ◌==◌, Option,
}
use stylus_mobile_native_aut.Bytes.{Bytes, from_be_bytes, to_be_bytes, slice, u64_mod}
use stylus_mobile_native_aut.Eip712.{word}
use stylus_mobile_native_aut.Host.{Host}
use stylus_mobile_native_aut.Errors.{
  Checked, invalid_signature_length, invalid_signature, invalid_r, invalid_s, high_s,
}
use stylus_mobile_native_aut.P256.{is_valid_scalar, is_low_s}
use stylus_mobile_native_aut.P256.Values.{order, is_valid_scalar_iff, is_low_s_iff}
use stylus_mobile_native_aut.Signature.{
  p256_precompile, precompile_input, precompile_staticcall, verify_p256_precompile,
  validate_p256_signature, is_magic,
}

-- The precompile is called with hash ‖ r ‖ s ‖ x ‖ y, each 32 bytes.
pub precompile_layout :
    (hash r s x y : ℕ)
    → precompile_input hash r s x y ≡ word hash ++ (word r ++ (word s ++ (word x ++ word y)))
unfolding precompile_input to_be_bytes
precompile_layout hash r s x y = refl

module _ (host : Host) where
  -- The precompile, called at 0x100 on the five words, answers with 32 bytes of which the last is 1.
  abbrev pub PrecompileAccepts : ℕ → ℕ → ℕ → ℕ → ℕ → Type 0
  PrecompileAccepts hash r s x y =
      (output : Bytes) × (host.staticcall 0x100
          (word hash ++ (word r ++ (word s ++ (word x ++ word y))))
        ≡ some output)
      × (length output ≡ 32)
      × (get_elem? output 31 ≡ some 1)

  answer_iff :
      (o : Option Bytes)
      → (elim o [ some output ↦ is_magic output | none ↦ false ] ≡ true) ↔ (
          (output : Bytes) × (o ≡ some output)
          × (length output ≡ 32)
          × (get_elem? output 31 ≡ some 1))
  answer_iff none = ground arith
  answer_iff (some output) = (λ h. (output, refl, ground arith, ground arith), λ k. ground arith)

  verify_p256_precompile_iff :
      (hash r s x y : ℕ)
      → (verify_p256_precompile host hash r s x y ≡ true) ↔ PrecompileAccepts hash r s x y
  unfolding verify_p256_precompile precompile_staticcall
  verify_p256_precompile_iff hash r s x y =
      rw (← precompile_layout hash r s x y)
        (answer_iff (host.staticcall p256_precompile (precompile_input hash r s x y)))

-- The two scalars that a signature spells.
abbrev pub scalar_r : Bytes → ℕ
scalar_r signature = from_be_bytes (slice 0 32 signature)

abbrev pub scalar_s : Bytes → ℕ
scalar_s signature = from_be_bytes (slice 32 64 signature)

abbrev pub InRange : ℕ → Type 0
InRange c = (0 < c) × (c < order)

above_half : (s : ℕ) → 0 < s → is_low_s s ≡ false → order / 2 < s
above_half s pos not_low = grind (arith, is_low_s_iff s)

-- The outcome of the check: the first requirement that fails names the error.
pub data Verdict (host : Host) (hash : ℕ) (signature : Bytes) (x y : ℕ)
    : Checked (Unit {0}) → Type 0 where
  wrong_length :
      length signature ≢ 64
      → Verdict host hash signature x y
          (err (invalid_signature_length (length signature % u64_mod)))
  bad_r :
      length signature ≡ 64
      → ¬ InRange (scalar_r signature)
      → Verdict host hash signature x y (err invalid_r)
  bad_s :
      length signature ≡ 64
      → InRange (scalar_r signature)
      → ¬ InRange (scalar_s signature)
      → Verdict host hash signature x y (err invalid_s)
  high :
      length signature ≡ 64
      → InRange (scalar_r signature)
      → InRange (scalar_s signature)
      → order / 2 < scalar_s signature
      → Verdict host hash signature x y (err high_s)
  rejected :
      length signature ≡ 64
      → InRange (scalar_r signature)
      → InRange (scalar_s signature)
      → scalar_s signature ≤ order / 2
      → ¬ PrecompileAccepts host hash (scalar_r signature) (scalar_s signature) x y
      → Verdict host hash signature x y (err invalid_signature)
  accepted :
      length signature ≡ 64
      → InRange (scalar_r signature)
      → InRange (scalar_s signature)
      → scalar_s signature ≤ order / 2
      → PrecompileAccepts host hash (scalar_r signature) (scalar_s signature) x y
      → Verdict host hash signature x y (ok tt)

refutes : {P : Type 0} (b : Bool) → ((b ≡ true) ↔ P) → b ≡ false → ¬ P
refutes b e f p = cc (e.1 p)

module _ (host : Host) (hash : ℕ) (signature : Bytes) (x y : ℕ) where
  -- `validate_p256_signature` gives every signature the outcome that its first failing requirement
  -- names (length 64, r in (0, n), s in (0, n), s ≤ n/2, acceptance by the precompile), and accepts
  -- it if none fails.
  pub validate_p256_signature-Verdict :
      Verdict host hash signature x y (validate_p256_signature host hash signature x y)
  unfolding validate_p256_signature
  validate_p256_signature-Verdict =
      let r = scalar_r signature in
      let s = scalar_s signature in
      let r_range = is_valid_scalar_iff r in
      let s_range = is_valid_scalar_iff s in
      let answer = verify_p256_precompile_iff host hash r s x y in
      elim (Bool-cases (length signature == 64)) [
        | inr l ↦ rw l (wrong_length (λ e. cc (eq→== _ _ e)))
        | inl l ↦ elim (Bool-cases (is_valid_scalar r)) [
          | inr a ↦ rw (l, a) (bad_r (==→eq _ _ l) (refutes _ r_range a))
          | inl a ↦ elim (Bool-cases (is_valid_scalar s)) [
            | inr b ↦ rw (l, a, b) (bad_s (==→eq _ _ l) (r_range.0 a) (refutes _ s_range b))
            | inl b ↦ elim (Bool-cases (is_low_s s)) [
              | inr c ↦
                  rw (l, a, b, c)
                    (high (==→eq _ _ l) (r_range.0 a) (s_range.0 b)
                      (above_half s (s_range.0 b).0 c))
              | inl c ↦ elim (Bool-cases (verify_p256_precompile host hash r s x y)) [
                | inr d ↦
                    rw (l, a, b, c, d)
                      (rejected (==→eq _ _ l) (r_range.0 a) (s_range.0 b) ((is_low_s_iff s).0 c).1
                        (refutes _ answer d))
                | inl d ↦
                    rw (l, a, b, c, d)
                      (accepted (==→eq _ _ l) (r_range.0 a) (s_range.0 b) ((is_low_s_iff s).0 c).1
                        (answer.0 d))
              ]
            ]
          ]
        ]
      ]
