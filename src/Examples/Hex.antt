-- ===== src/Examples/Hex.antt =====
-- A hex codec for the tools of the witnesses.
use stylus_mobile_native_aut.Base.{
  ℕ, ◌+◌, ◌*◌, ◌/◌, ◌%◌, ◌<◌, ◌≡◌, refl, Bool, true, false, ◌&&◌, [], ◌∷◌, Option, none, some, ltb,
  if◌then◌else◌, length, arith,
}
use stylus_mobile_native_aut.Bytes.{Bytes}
use stylus_mobile_native_aut.Bytes.Valid.{AreBytes}
use stylus_mobile_native_aut.Harness.{hex_nibble}
use stylus_mobile_native_aut.Harness.Output.{Text, all, is_ascii_hexdigit}
use stylus_mobile_native_aut.Harness.Output.Address.{is_lower_hexdigit}

abbrev lower_digit : ℕ → ℕ
lower_digit d = if ltb d 10 then b'0' + d else 87 + d

unfoldable pub encode : Bytes → Text
encode [] = []
encode (b ∷ bs) = lower_digit (b / 16) ∷ (lower_digit (b % 16) ∷ encode bs)

abbrev push : ℕ → Option Bytes → Option Bytes
push b none = none
push b (some bs) = some (b ∷ bs)

unfoldable pub decode : Text → Option Bytes
decode [] = some []
decode (a ∷ []) = none
decode (a ∷ (b ∷ cs)) =
    let rest = decode cs in
    if is_ascii_hexdigit a && is_ascii_hexdigit b
    then push (hex_nibble a * 16 + hex_nibble b) rest
    else none

digit-hexdigit : (d : ℕ) → d < 16 → is_ascii_hexdigit (lower_digit d) ≡ true
digit-hexdigit d h = ground arith

digit-lower : (d : ℕ) → d < 16 → is_lower_hexdigit (lower_digit d) ≡ true
digit-lower d h = ground arith

hex_nibble-lower_digit : (d : ℕ) → d < 16 → hex_nibble (lower_digit d) ≡ d
unfolding hex_nibble
hex_nibble-lower_digit d h = ground arith

hex_nibble-below : (c : ℕ) → hex_nibble c < 16
unfolding hex_nibble
hex_nibble-below c = ground arith

pub decode-encode : (bs : Bytes) → AreBytes bs → decode (encode bs) ≡ some bs
unfolding decode encode
decode-encode [] h = refl
decode-encode (b ∷ bs) (h, hs) =
    let high : b / 16 < 16 = omega (arith, h) in
    let low : b % 16 < 16 = omega arith in
    let whole : b / 16 * 16 + b % 16 ≡ b = omega arith in
    rw
      (
        digit-hexdigit (b / 16) high,
        digit-hexdigit (b % 16) low,
        hex_nibble-lower_digit (b / 16) high,
        hex_nibble-lower_digit (b % 16) low,
        decode-encode bs hs,
        whole,
      )
      refl

pub length-encode : (bs : Bytes) → length (encode bs) ≡ length bs + length bs
unfolding encode
length-encode [] = refl
length-encode (b ∷ bs) = omega (arith, length-encode bs)

pub encode-lower : (bs : Bytes) → AreBytes bs → all is_lower_hexdigit (encode bs) ≡ true
unfolding encode
encode-lower [] h = refl
encode-lower (b ∷ bs) (h, hs) =
    rw (digit-lower (b / 16) (omega (arith, h)), digit-lower (b % 16) (omega arith))
      (encode-lower bs hs)

push-AreBytes :
    (b : ℕ) (o : Option Bytes) (bs : Bytes)
    → b < 256
    → ((cs : Bytes) → o ≡ some cs → AreBytes cs)
    → push b o ≡ some bs
    → AreBytes bs
push-AreBytes b none bs h k e = absurd (ground (arith, e))
push-AreBytes b (some cs) bs h k e =
    let same : b ∷ cs ≡ bs = ground (arith, e) in rw (← same) (h, k cs refl)

if-some :
    (c : Bool) (o : Option Bytes) (bs : Bytes) → (if c then o else none) ≡ some bs → o ≡ some bs
if-some true o bs e = e
if-some false o bs e = absurd (ground (arith, e))

pub decode-AreBytes : (t : Text) (bs : Bytes) → decode t ≡ some bs → AreBytes bs
unfolding decode
decode-AreBytes [] bs e = let same : [] ≡ bs = ground (arith, e) in rw (← same) tt
decode-AreBytes (a ∷ []) bs e = absurd (ground (arith, e))
decode-AreBytes (a ∷ (b ∷ cs)) bs e =
    push-AreBytes (hex_nibble a * 16 + hex_nibble b) (decode cs) bs
      (omega (arith, hex_nibble-below a, hex_nibble-below b)) (decode-AreBytes cs)
      (if-some _ _ bs e)
