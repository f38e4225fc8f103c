-- ===== src/Signature/Malleable.antt =====
-- Acceptance in one statement, and the mirror image of an accepted signature.
use stylus_mobile_native_aut.Base.{
  ℕ, ◌-◌, ◌/◌, ◌≤◌, ◌<◌, ◌≡◌, refl, ◌↔◌, ok, err, length, ◌++◌, arith, take, take_whole,
  take_of_length, drop_of_length, length-append, ap, ◌∙◌,
}
use stylus_mobile_native_aut.Bytes.{Bytes, from_be_bytes, IsU256}
use stylus_mobile_native_aut.Bytes.RoundTrip.{length-to_be_bytes, from_be_bytes-to_be_bytes}
use stylus_mobile_native_aut.Eip712.{word}
use stylus_mobile_native_aut.Host.{Host}
use stylus_mobile_native_aut.Errors.{Checked, high_s}
use stylus_mobile_native_aut.P256.Values.{order}
use stylus_mobile_native_aut.Signature.{validate_p256_signature}
use stylus_mobile_native_aut.Signature.Verdict.{
  PrecompileAccepts, InRange, scalar_r, scalar_s, Verdict, wrong_length, bad_r, bad_s, high,
  rejected, accepted, validate_p256_signature-Verdict,
}

-- What an accepted signature satisfies.
pub record Accepted (host : Host) (hash : ℕ) (signature : Bytes) (x y : ℕ) : Type 0 where
  pub size : length signature ≡ 64
  pub r_range : InRange (scalar_r signature)
  pub s_range : InRange (scalar_s signature)
  pub low : scalar_s signature ≤ order / 2
  pub verified : PrecompileAccepts host hash (scalar_r signature) (scalar_s signature) x y

module _ (host : Host) (hash : ℕ) (signature : Bytes) (x y : ℕ) where
  Verdict-ok :
      {c : Checked (Unit {0})}
      → Verdict host hash signature x y c
      → c ≡ ok tt
      → Accepted host hash signature x y
  Verdict-ok (wrong_length _) e = cc
  Verdict-ok (bad_r _ _) e = cc
  Verdict-ok (bad_s _ _ _) e = cc
  Verdict-ok (high _ _ _ _) e = cc
  Verdict-ok (rejected _ _ _ _ _) e = cc
  Verdict-ok (accepted l r s h v) e = record {
    size = l;
    r_range = r;
    s_range = s;
    low = h;
    verified = v;
  }

  ok-Verdict :
      {c : Checked (Unit {0})}
      → Verdict host hash signature x y c
      → Accepted host hash signature x y
      → c ≡ ok tt
  ok-Verdict (wrong_length n) a = absurd (n a.size)
  ok-Verdict (bad_r _ n) a = absurd (n a.r_range)
  ok-Verdict (bad_s _ _ n) a = absurd (n a.s_range)
  ok-Verdict (high _ _ _ n) a = absurd (omega (arith, a.low))
  ok-Verdict (rejected _ _ _ _ n) a = absurd (n a.verified)
  ok-Verdict (accepted _ _ _ _ _) a = refl

  pub Accepted-iff :
      (validate_p256_signature host hash signature x y ≡ ok tt) ↔ Accepted host hash signature x y
  Accepted-iff = (
    Verdict-ok (validate_p256_signature-Verdict host hash signature x y),
    ok-Verdict (validate_p256_signature-Verdict host hash signature x y),
  )

  high-Verdict :
      {c : Checked (Unit {0})}
      → Verdict host hash signature x y c
      → length signature ≡ 64
      → InRange (scalar_r signature)
      → InRange (scalar_s signature)
      → order / 2 < scalar_s signature
      → c ≡ err high_s
  high-Verdict (wrong_length n) l r s h = absurd (n l)
  high-Verdict (bad_r _ n) l r s h = absurd (n r)
  high-Verdict (bad_s _ _ n) l r s h = absurd (n s)
  high-Verdict (high _ _ _ _) l r s h = refl
  high-Verdict (rejected _ _ _ n _) l r s h = absurd (omega arith)
  high-Verdict (accepted _ _ _ n _) l r s h = absurd (omega arith)

-- A signature written as its two scalars.
abbrev pub encode : ℕ → ℕ → Bytes
encode r s = word r ++ word s

pub length-encode : (r s : ℕ) → length (encode r s) ≡ 64
length-encode r s =
    omega
      (arith, length-append {0} (word r) (word s), length-to_be_bytes 32 r, length-to_be_bytes 32 s)

pub scalar_r-encode : (r s : ℕ) → IsU256 r → scalar_r (encode r s) ≡ r
scalar_r-encode r s h =
    ap from_be_bytes (take_of_length 32 (word r) (word s) (length-to_be_bytes 32 r))
    ∙ from_be_bytes-to_be_bytes 32 r h

pub scalar_s-encode : (r s : ℕ) → IsU256 s → scalar_s (encode r s) ≡ s
scalar_s-encode r s h =
    ap (λ l. from_be_bytes (take 32 l))
      (drop_of_length 32 (word r) (word s) (length-to_be_bytes 32 r))
    ∙ (ap from_be_bytes (take_whole 32 (word s) (length-to_be_bytes 32 s))
        ∙ from_be_bytes-to_be_bytes 32 s h)

-- The mirror image (r, n − s) of an accepted signature (r, s) of words is refused with `HighS`,
-- whatever the precompile answers for it.
pub mirrored_high :
    (host : Host) (hash r s x y : ℕ)
    → IsU256 r
    → IsU256 s
    → validate_p256_signature host hash (encode r s) x y ≡ ok tt
    → validate_p256_signature host hash (encode r (order - s)) x y ≡ err high_s
mirrored_high host hash r s x y hr hs h =
    let a = (Accepted-iff host hash (encode r s) x y).0 h in
    let small : s ≤ order / 2 = rw (← scalar_s-encode r s hs) a.low in
    let positive : 0 < s = rw (← scalar_s-encode r s hs) a.s_range.0 in
    let mirror = scalar_s-encode r (order - s) (omega arith) in
    high-Verdict host hash (encode r (order - s)) x y
      (validate_p256_signature-Verdict host hash (encode r (order - s)) x y)
      (length-encode r (order - s))
      (rw (scalar_r-encode r (order - s) hr, ← scalar_r-encode r s hr) a.r_range)
      (rw mirror (omega (arith, small, positive))) (rw mirror (omega (arith, small)))
