-- ===== src/Harness/Scenarios/Signing.antt =====
-- Keys of the p256 crate in the scenarios.
use stylus_mobile_native_aut.Base.{ℕ, ◌-◌, ◌/◌, ◌≡◌, none, some, true, [], ltb, if◌then◌else◌}
use stylus_mobile_native_aut.Eip712.{word}
use stylus_mobile_native_aut.Host.{Host}
use stylus_mobile_native_aut.P256.{is_valid_pubkey}
use stylus_mobile_native_aut.P256.Values.{order}
use stylus_mobile_native_aut.Signature.Verdict.{PrecompileAccepts, InRange}
use stylus_mobile_native_aut.Harness.Keys.{Crate, sign, sign-Accepted}
use stylus_mobile_native_aut.Harness.Scenarios.{Keypair}
use stylus_mobile_native_aut.Harness.Scenarios.Steps.{CanSign}

-- What the crate gives for a digest verifies, and so does its mirror image.
pub record Signs (host : Host) (crate : Crate) (sk : crate.SigningKey) (x y hash : ℕ) : Type 0 where
  pub r : ℕ
  pub s : ℕ
  pub signed : crate.sign_prehash sk (word hash) ≡ some (r, s)
  pub r_range : InRange r
  pub s_range : InRange s
  pub accepts : PrecompileAccepts host hash r s x y
  pub mirrored : PrecompileAccepts host hash r (order - s) x y

-- The key with the coordinates `x` and `y`; the empty signature stands for a panic.
abbrev pub keypair_of : (crate : Crate) → crate.SigningKey → ℕ → ℕ → Keypair
keypair_of crate sk x y = record {
  pub_x = x;
  pub_y = y;
  sign = λ hash. elim (sign crate sk hash) [ none ↦ [] | some signature ↦ signature ];
}

-- A usable key whose signatures verify, with their mirror images, meets what the scenarios ask of a
-- key.
pub sign-CanSign :
    (host : Host) (crate : Crate)
    (normal : (r s : ℕ)
      → crate.normalize_s (r, s) ≡ (if ltb (order / 2) s then some (r, order - s) else none))
    (sk : crate.SigningKey) (x y : ℕ)
    → is_valid_pubkey x y ≡ true
    → ((hash : ℕ) → Signs host crate sk x y hash)
    → CanSign host (keypair_of crate sk x y)
sign-CanSign host crate normal sk x y usable signs = record {
  usable = usable;
  accepts = λ hash.
      let g = signs hash in
      let (signature, e, accepted) =
        sign-Accepted host crate normal sk hash g.r g.s x y g.signed g.r_range g.s_range g.accepts
          g.mirrored in
      rw (keypair_of, e) accepted;
}
