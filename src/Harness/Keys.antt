-- ===== src/Harness/Keys.antt =====
-- `Keypair::generate` and `Keypair::sign` of contracts/stylus/devnode-tests/src/main.rs. The p256 crate is a
-- parameter; a failed `expect` or `assert_eq!` is `none`.
use stylus_mobile_native_aut.Base.{
  ℕ, ◌-◌, ◌/◌, ◌≤◌, ◌<◌, ◌≡◌, refl, ◌&&◌, Bool, false, ◌∷◌, ◌++◌, Option, none, some, length,
  get_elem?, ltb, ltb→lt, ◌==◌, Bool-cases, if◌then◌else◌, inl, inr, arith,
}
use stylus_mobile_native_aut.Bytes.{Bytes, zeros, slice, copy_from_slice, to_be_bytes}
use stylus_mobile_native_aut.Eip712.{word}
use stylus_mobile_native_aut.Host.{Host}
use stylus_mobile_native_aut.P256.Values.{order}
use stylus_mobile_native_aut.Signature.Verdict.{PrecompileAccepts, InRange}
use stylus_mobile_native_aut.Signature.Malleable.{
  Accepted, encode, length-encode, scalar_r-encode, scalar_s-encode,
}

-- What the harness uses of the crate: the verifying key's uncompressed point, signatures as their two
-- scalars, and `normalize_s`, which answers `none` for a signature that is normal.
pub record Crate : Type 1 where
  pub SigningKey : Type 0
  pub encoded_point : SigningKey → Bytes
  pub sign_prehash : SigningKey → Bytes → Option (ℕ × ℕ)
  pub normalize_s : ℕ × ℕ → Option (ℕ × ℕ)

module _ (crate : Crate) where
  -- The coordinates of a generated key.
  unfoldable pub coordinates : crate.SigningKey → Option (Bytes × Bytes)
  coordinates sk =
      let bytes = crate.encoded_point sk in
      let is_point : Bool = elim (get_elem? bytes 0) [ none ↦ false | some b ↦ b == 0x04 ] in
      if (length bytes == 65) && is_point then some (slice 1 33 bytes, slice 33 65 bytes) else none

  -- `out[0..32]` and `out[32..64]`.
  abbrev pub joined_scalars : ℕ × ℕ → Bytes
  joined_scalars sig =
      copy_from_slice 32 64 (word sig.1) (copy_from_slice 0 32 (word sig.0) (zeros 64))

  unfoldable pub sign : crate.SigningKey → Bytes → Option Bytes
  sign sk hash = elim (crate.sign_prehash sk hash) [
    | none ↦ none
    | some sig ↦ elim (crate.normalize_s sig) [
      | none ↦ some (joined_scalars sig)
      | some normal ↦ some (joined_scalars normal)
    ]
  ]

-- A point `0x04 ‖ x ‖ y` gives the two words `x` and `y`.
pub coordinates_lem :
    (crate : Crate) (sk : crate.SigningKey) (x y : ℕ)
    → crate.encoded_point sk ≡ 0x04 ∷ (word x ++ word y)
    → coordinates crate sk ≡ some (word x, word y)
unfolding coordinates to_be_bytes
coordinates_lem crate sk x y e = rw (coordinates, e) refl

pub joined_encode : (crate : Crate) (r s : ℕ) → joined_scalars crate (r, s) ≡ encode r s
unfolding to_be_bytes
joined_encode crate r s = refl

encode-Accepted :
    (host : Host) (hash r s x y : ℕ)
    → InRange r
    → 0 < s
    → s ≤ order / 2
    → PrecompileAccepts host hash r s x y
    → Accepted host hash (encode r s) x y
encode-Accepted host hash r s x y in_r positive low accepts =
    let er = scalar_r-encode r s (omega (arith, in_r.1)) in
    let es = scalar_s-encode r s (omega (arith, low)) in
    record {
      size = length-encode r s;
      r_range = rw er in_r;
      s_range = rw es (positive, omega (arith, low));
      low = rw es low;
      verified = rw (er, es) accepts;
    }

module _ (host : Host) (crate : Crate)
    (normal : (r s : ℕ)
      → crate.normalize_s (r, s) ≡ (if ltb (order / 2) s then some (r, order - s) else none)) where
  -- If `normalize_s` replaces the `s` of a signature in the upper half of the order by its mirror
  -- image and leaves every other, then the bytes that `Keypair::sign` gives for a digest, where the
  -- crate signs it with scalars in range that the precompile accepts together with their mirror
  -- image, are a signature that the contract accepts.
  pub sign-Accepted :
      (sk : crate.SigningKey) (hash r s x y : ℕ)
      → crate.sign_prehash sk (word hash) ≡ some (r, s)
      → InRange r
      → InRange s
      → PrecompileAccepts host hash r s x y
      → PrecompileAccepts host hash r (order - s) x y
      → (signature : Bytes) × (sign crate sk (word hash) ≡ some signature)
        × Accepted host hash signature x y
  unfolding sign
  sign-Accepted sk hash r s x y signed in_r in_s accepts mirrored =
      elim (Bool-cases (ltb (order / 2) s)) [
        | inl high ↦
            let e : crate.normalize_s (r, s) ≡ some (r, order - s) = rw (normal r s, high) refl in
            (
              encode r (order - s),
              rw (sign, signed, e, ← joined_encode crate r (order - s)) refl,
              encode-Accepted host hash r (order - s) x y in_r (omega (arith, in_s))
                  (omega (arith, ltb→lt (order / 2) s high)) mirrored,
            )
        | inr low ↦
            let e : crate.normalize_s (r, s) ≡ none = rw (normal r s, low) refl in
            (
              encode r s,
              rw (sign, signed, e, ← joined_encode crate r s) refl,
              encode-Accepted host hash r s x y in_r in_s.0 (ground (arith, low)) accepts,
            )
      ]
