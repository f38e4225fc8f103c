-- ===== src/Harness/Output/Parse.antt =====
-- `parse_addr` on what `extract_deployed_address` finds.
use stylus_mobile_native_aut.Base.{
  ℕ, ◌≤◌, ◌≡◌, refl, ap, ◌∙◌, true, false, &&_iff, [], ◌∷◌, ◌++◌, append-nil, Option, some, ok,
  length, ◌==◌, eq→==, arith,
}
use stylus_mobile_native_aut.Bytes.{Bytes}
use stylus_mobile_native_aut.Harness.Receipt.{trim_start_0x}
use stylus_mobile_native_aut.Harness.Output.{
  Text, is_whitespace, all, reversed, trim_start, trim, parse_addr, extract_deployed_address,
}
use stylus_mobile_native_aut.Harness.Output.Address.{
  is_lower_hexdigit, IsAddressText, extract_deployed_address-IsAddressText,
}

abbrev pub NoSpace : Text → Type 0
NoSpace [] = Unit {0}
NoSpace (c ∷ cs) = (is_whitespace c ≡ false) × NoSpace cs

reversed-reversed : (xs acc ys : Text) → reversed ys (reversed acc xs) ≡ reversed (xs ++ ys) acc
reversed-reversed [] acc ys = refl
reversed-reversed (c ∷ cs) acc ys = reversed-reversed cs (c ∷ acc) ys

reversed-NoSpace : (xs acc : Text) → NoSpace xs → NoSpace acc → NoSpace (reversed acc xs)
reversed-NoSpace [] acc h k = k
reversed-NoSpace (c ∷ cs) acc (h, hs) k = reversed-NoSpace cs (c ∷ acc) hs (h, k)

trim_start-NoSpace : (xs : Text) → NoSpace xs → trim_start xs ≡ xs
trim_start-NoSpace [] h = refl
trim_start-NoSpace (c ∷ cs) (h, hs) = rw h refl

pub trim-NoSpace : (xs : Text) → NoSpace xs → trim xs ≡ xs
trim-NoSpace xs h =
    ap (λ l. reversed [] (trim_start (reversed [] l))) (trim_start-NoSpace xs h)
    ∙ (ap (reversed []) (trim_start-NoSpace (reversed [] xs) (reversed-NoSpace xs [] h tt))
        ∙ (reversed-reversed xs [] [] ∙ append-nil xs))

pub middle-space : (c : ℕ) → 33 ≤ c → c ≤ 126 → is_whitespace c ≡ false
middle-space c low high = ground arith

digit-range : (c : ℕ) → is_lower_hexdigit c ≡ true → (33 ≤ c) × (c ≤ 126)
digit-range c h = ground arith

digit-space : (c : ℕ) → is_lower_hexdigit c ≡ true → is_whitespace c ≡ false
digit-space c h = let range = digit-range c h in middle-space c range.0 range.1

digits-NoSpace : (cs : Text) → all is_lower_hexdigit cs ≡ true → NoSpace cs
digits-NoSpace [] h = tt
digits-NoSpace (c ∷ cs) h =
    let both = (&&_iff _ _).0 h in (digit-space c both.0, digits-NoSpace cs both.1)

digit-x : (c : ℕ) → is_lower_hexdigit c ≡ true → (c == b'x') ≡ false
digit-x c h = ground arith

bare-pair :
    (c d : ℕ) (cs : Text) → (d == b'x') ≡ false → trim_start_0x (c ∷ (d ∷ cs)) ≡ c ∷ (d ∷ cs)
unfolding trim_start_0x
bare-pair c d cs h = ground arith

bare-digits : (cs : Text) → all is_lower_hexdigit cs ≡ true → trim_start_0x cs ≡ cs
unfolding trim_start_0x
bare-digits [] h = refl
bare-digits (c ∷ []) h = refl
bare-digits (c ∷ (d ∷ cs)) h =
    let both = (&&_iff _ _).0 h in
    let second = (&&_iff (is_lower_hexdigit d) (all is_lower_hexdigit cs)).0 both.1 in
    bare-pair c d cs (digit-x d second.0)

pub trim-hex :
    (digits : Text)
    → all is_lower_hexdigit digits ≡ true
    → trim (b'0' ∷ (b'x' ∷ digits)) ≡ b'0' ∷ (b'x' ∷ digits)
trim-hex digits lower =
    trim-NoSpace (b'0' ∷ (b'x' ∷ digits)) (refl, (refl, digits-NoSpace digits lower))

pub trim_digits :
    (digits : Text)
    → all is_lower_hexdigit digits ≡ true
    → trim_start_0x (trim (b'0' ∷ (b'x' ∷ digits))) ≡ digits
unfolding trim_start_0x
trim_digits digits lower = ap trim_start_0x (trim-hex digits lower) ∙ bare-digits digits lower

pub parse_addr-decoded :
    (hex_decode : Text → Option Bytes) (s : Text) (b : Bytes)
    → parse_addr hex_decode s ≡ ok b
    → hex_decode (trim_start_0x (trim s)) ≡ some b
unfolding parse_addr
parse_addr-decoded hex_decode s b h = ground (arith, h)

-- `0x` and digits that spell 20 bytes.
pub parse_addr_digits :
    (hex_decode : Text → Option Bytes) (digits : Text) (b : Bytes)
    → all is_lower_hexdigit digits ≡ true
    → hex_decode digits ≡ some b
    → length b ≡ 20
    → parse_addr hex_decode (b'0' ∷ (b'x' ∷ digits)) ≡ ok b
unfolding parse_addr
parse_addr_digits hex_decode digits b lower decoded twenty =
    rw (parse_addr, trim_digits digits lower, decoded, eq→== _ _ twenty) refl

module _ (hex_decode : Text → Option Bytes)
    (decodes : (digits : Text)
      → length digits ≡ 40
      → all is_lower_hexdigit digits ≡ true
      → (b : Bytes) × (hex_decode digits ≡ some b) × (length b ≡ 20)) where
  parse_addr-IsAddressText :
      (a : Text)
      → IsAddressText a
      → (b : Bytes) × (parse_addr hex_decode a ≡ ok b) × (length b ≡ 20)
  parse_addr-IsAddressText a (digits, e, size, lower) =
      let (b, decoded, twenty) = decodes digits size lower in
      (
        b,
        ap (parse_addr hex_decode) e ∙ parse_addr_digits hex_decode digits b lower decoded twenty,
        twenty,
      )

  -- If `hex::decode` turns 40 hexadecimal digits into 20 bytes, then every address that
  -- `extract_deployed_address` finds is parsed by `parse_addr`, to 20 bytes.
  pub parse_addr-extract_deployed_address :
      (stdout dev_addr a : Text)
      → extract_deployed_address stdout dev_addr ≡ some a
      → (b : Bytes) × (parse_addr hex_decode a ≡ ok b) × (length b ≡ 20)
  parse_addr-extract_deployed_address stdout dev_addr a h =
      parse_addr-IsAddressText a (extract_deployed_address-IsAddressText stdout dev_addr a h).0
