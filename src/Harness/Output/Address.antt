-- ===== src/Harness/Output/Address.antt =====
-- What the address scanner can return.
use stylus_mobile_native_aut.Base.{
  ℕ, suc, &&_iff, ◌≡◌, refl, ap, sym, ◌∙◌, ◌⊎◌, inl, inr, Bool, true, false, ◌&&◌, ◌||◌, List, [],
  ◌∷◌, some, length, leb, ◌==◌, ==→eq, arith, Bool-cases, Option-cases,
}
use stylus_mobile_native_aut.Harness.Receipt.{to_ascii_lowercase, eq_ignore_ascii_case}
use stylus_mobile_native_aut.Harness.Output.{
  Text, is_ascii_hexdigit, all, map_text, to_lowercase, split, is_delimiter, strip_0x,
  address_of_token, first_token, first_address_token, announced, announces, isolated, lines, trim,
  extract_deployed_address,
}
use stylus_mobile_native_aut.Harness.Output.Announced.{
  Announcement, StandsIn, announced-Announcement, Announcement-announced,
  first_address_token-StandsIn,
}

-- A lower-case hexadecimal digit.
abbrev pub is_lower_hexdigit : ℕ → Bool
is_lower_hexdigit c = (leb b'0' c && leb c b'9') || (leb b'a' c && leb c b'f')

-- `0x` and 40 lower-case hexadecimal digits.
abbrev pub IsAddressText : Text → Type 0
IsAddressText a =
    (digits : Text) × (a ≡ b'0' ∷ (b'x' ∷ digits))
    × (length digits ≡ 40)
    × (all is_lower_hexdigit digits ≡ true)

lower-digit : (c : ℕ) → is_ascii_hexdigit c ≡ true → is_lower_hexdigit (to_ascii_lowercase c) ≡ true
lower-digit c h = ground arith

lower-digits :
    (cs : Text) → all is_ascii_hexdigit cs ≡ true → all is_lower_hexdigit (to_lowercase cs) ≡ true
lower-digits [] h = refl
lower-digits (c ∷ cs) h =
    let both = (&&_iff _ _).0 h in (&&_iff _ _).1 (lower-digit c both.0, lower-digits cs both.1)

length-map_text : (f : ℕ → ℕ) (cs : Text) → length (map_text f cs) ≡ length cs
length-map_text f [] = refl
length-map_text f (c ∷ cs) = ap suc (length-map_text f cs)

digits-IsAddressText :
    (digits a : Text)
    → (length digits == 40) && all is_ascii_hexdigit digits ≡ true
    → b'0' ∷ (b'x' ∷ to_lowercase digits) ≡ a
    → IsAddressText a
digits-IsAddressText digits a h e =
    let both = (&&_iff _ _).0 h in
    (
      to_lowercase digits,
      sym e,
      length-map_text to_ascii_lowercase digits ∙ ==→eq _ _ both.0,
      lower-digits digits both.1,
    )

some-injective : (a b : Text) → some a ≡ some b → a ≡ b
some-injective a b h = cc

token-IsAddressText : (tok a : Text) → address_of_token tok ≡ some a → IsAddressText a
unfolding address_of_token
token-IsAddressText tok a h = elim (Option-cases (strip_0x tok)) [
  | inl e ↦ absurd (ground (arith, h, e))
  | inr (digits, e) ↦ elim (Bool-cases ((length digits == 40) && all is_ascii_hexdigit digits)) [
    | inl t ↦ digits-IsAddressText digits a t (some-injective _ a (ground (arith, h, e, t)))
    | inr f ↦ absurd (ground (arith, h, e, f))
  ]
]

first_token-IsAddressText :
    (toks : List Text) (a : Text) → first_token toks ≡ some a → IsAddressText a
first_token-IsAddressText [] a h = cc
first_token-IsAddressText (tok ∷ toks) a h = elim (Option-cases (address_of_token tok)) [
  | inl e ↦ first_token-IsAddressText toks a (ground (arith, h, e))
  | inr (b, e) ↦ token-IsAddressText tok a (ground (arith, h, e))
]

-- What `first_address_token` finds is `0x` and 40 lower-case hexadecimal digits.
pub first_address_token-IsAddressText :
    (s a : Text) → first_address_token s ≡ some a → IsAddressText a
unfolding first_address_token
first_address_token-IsAddressText s a h = first_token-IsAddressText (split is_delimiter s) a h

announced-IsAddressText :
    (lowers ls : List Text) (a : Text) → announced lowers ls ≡ some a → IsAddressText a
unfolding announced
announced-IsAddressText [] ls a h = cc
announced-IsAddressText (l ∷ lowers) [] a h = cc
announced-IsAddressText (l ∷ lowers) (line ∷ ls) a h = elim (Bool-cases (announces l)) [
  | inr e ↦ announced-IsAddressText lowers ls a (ground (arith, h, e))
  | inl e ↦ elim (Option-cases (first_address_token line)) [
    | inl n ↦ announced-IsAddressText lowers ls a (ground (arith, h, e, n))
    | inr (b, f) ↦ first_address_token-IsAddressText line a (ground (arith, h, e, f))
  ]
]

-- The address stands in one of the lines, once they are trimmed.
abbrev pub OnALine : Text → List Text → Type 0
OnALine a [] = ⊥
OnALine a (line ∷ ls) = StandsIn a (trim line) ⊎ OnALine a ls

isolated-IsAddressText :
    (dev_addr : Text) (ls : List Text) (a : Text)
    → isolated dev_addr ls ≡ some a
    → IsAddressText a × (eq_ignore_ascii_case a dev_addr ≡ false) × OnALine a ls
unfolding isolated
isolated-IsAddressText dev_addr [] a h = cc
isolated-IsAddressText dev_addr (line ∷ ls) a h =
    let below = isolated-IsAddressText dev_addr ls a in
    elim (Option-cases (first_address_token (trim line))) [
      | inl n ↦ let found = below (ground (arith, h, n)) in (found.0, found.1, inr found.2)
      | inr (b, f) ↦ elim (Bool-cases (eq_ignore_ascii_case b dev_addr)) [
        | inl e ↦ let found = below (ground (arith, h, f, e)) in (found.0, found.1, inr found.2)
        | inr e ↦
            let same = some-injective b a (ground (arith, h, f, e)) in
            let token = f ∙ ap some same in
            (
              first_address_token-IsAddressText (trim line) a token,
              ap (λ c. eq_ignore_ascii_case c dev_addr) (sym same) ∙ e,
              inl (first_address_token-StandsIn (trim line) a token),
            )
      ]
    ]

pub extract_deployed_address-IsAddressText :
    (stdout dev_addr a : Text)
    → extract_deployed_address stdout dev_addr ≡ some a
    → IsAddressText a
      × (Announcement (lines (to_lowercase stdout)) (lines stdout) a
          ⊎ (((b : Text) → ¬ Announcement (lines (to_lowercase stdout)) (lines stdout) b)
              × (eq_ignore_ascii_case a dev_addr ≡ false)
              × OnALine a (lines stdout)))
unfolding extract_deployed_address
extract_deployed_address-IsAddressText stdout dev_addr a h =
    let lowers = lines (to_lowercase stdout) in
    elim (Option-cases (announced lowers (lines stdout))) [
      | inl n ↦
          let found = isolated-IsAddressText dev_addr (lines stdout) a (ground (arith, h, n)) in
          (
            found.0,
            inr (λ b said. Announcement-announced lowers (lines stdout) b said n, found.1, found.2),
          )
      | inr (b, e) ↦
          let same = some-injective b a (ground (arith, h, e)) in
          let here = e ∙ ap some same in
          (
            announced-IsAddressText lowers (lines stdout) a here,
            inl (announced-Announcement lowers (lines stdout) a here),
          )
    ]
