-- ===== src/Harness/Output/Announced.antt =====
-- A line that announces an address, stated apart from the passes of the scanner.
use stylus_mobile_native_aut.Base.{
  ℕ, ◌≡◌, ◌≢◌, none, refl, ap, ap₂, ◌++◌, ◌∙◌, ◌⊎◌, inl, inr, true, List, [], ◌∷◌, some, length,
  ◌==◌, ◌&&◌, ==→eq, arith, Bool-cases, Option-cases,
}
use stylus_mobile_native_aut.Harness.{as_bytes}
use stylus_mobile_native_aut.Harness.Output.{
  Text, is_ascii_hexdigit, all, to_lowercase, split, is_delimiter, strip_0x, address_of_token,
  first_token, first_address_token, any_contained, contains, known_phrases, announces, announced,
}
use stylus_mobile_native_aut.Harness.Output.Occurs.{
  Occurs, contains-Occurs, contains_iff, Pieces, split-Pieces,
}

-- A phrase that a deployment is announced with.
abbrev pub IsPhrase : Text → Type 0
IsPhrase p =
    (p ≡ as_bytes "deployed code at address")
    ⊎ (p ≡ as_bytes "contract deployed at")
    ⊎ (p ≡ as_bytes "deployed contract at")
    ⊎ (p ≡ as_bytes "contract was deployed at")
    ⊎ (p ≡ as_bytes "activated and deployed")
    ⊎ (p ≡ as_bytes "stylus contract activated and ready at")
    ⊎ (p ≡ as_bytes "address:")

-- The address stands in the line, in any mix of cases.
abbrev pub StandsIn : Text → Text → Type 0
StandsIn a line =
    (x : ℕ) × (digits : Text) × ((x ≡ b'x') ⊎ (x ≡ b'X'))
    × Occurs (b'0' ∷ (x ∷ digits)) line
    × (a ≡ b'0' ∷ (b'x' ∷ to_lowercase digits))

-- Some line, whose lower-case text has a phrase in it, holds the address as its first.
pub data Announcement : List Text → List Text → Text → Type 0 where
  on_this_line :
      {line_lower line : Text} {lowers ls : List Text} {a : Text} (p : Text)
      → IsPhrase p
      → Occurs p line_lower
      → StandsIn a line
      → first_address_token line ≡ some a
      → Announcement (line_lower ∷ lowers) (line ∷ ls) a
  below :
      {line_lower line : Text} {lowers ls : List Text} {a : Text}
      → Announcement lowers ls a
      → Announcement (line_lower ∷ lowers) (line ∷ ls) a

strip_0x-shape :
    (tok digits : Text)
    → strip_0x tok ≡ some digits
    → (x : ℕ) × ((x ≡ b'x') ⊎ (x ≡ b'X')) × (tok ≡ b'0' ∷ (x ∷ digits))
strip_0x-shape [] digits h = cc
strip_0x-shape (a ∷ []) digits h = cc
strip_0x-shape (a ∷ (b ∷ rest)) digits h = elim (Bool-cases (a == b'0')) [
  | inr e ↦ absurd (ground (arith, h, e))
  | inl e ↦ elim (Bool-cases (b == b'x')) [
    | inl f ↦ (
      b,
      inl (==→eq b b'x' f),
      ap₂ (λ c cs. c ∷ (b ∷ cs)) (==→eq a b'0' e) (ground (arith, h, e, f)),
    )
    | inr f ↦ elim (Bool-cases (b == b'X')) [
      | inl g ↦ (
        b,
        inr (==→eq b b'X' g),
        ap₂ (λ c cs. c ∷ (b ∷ cs)) (==→eq a b'0' e) (ground (arith, h, e, f, g)),
      )
      | inr g ↦ absurd (ground (arith, h, e, f, g))
    ]
  ]
]

token-StandsIn :
    (tok a line : Text) → address_of_token tok ≡ some a → Occurs tok line → StandsIn a line
unfolding address_of_token
token-StandsIn tok a line h (before, after, at) = elim (Option-cases (strip_0x tok)) [
  | inl e ↦ absurd (ground (arith, h, e))
  | inr (digits, e) ↦ elim (Bool-cases ((length digits == 40) && all is_ascii_hexdigit digits)) [
    | inl t ↦
        let (x, letter, shape) = strip_0x-shape tok digits e in
        (
          x,
          digits,
          letter,
          (before, after, at ∙ ap (λ t. before ++ (t ++ after)) shape),
          ground (arith, h, e, t),
        )
    | inr f ↦ absurd (ground (arith, h, e, f))
  ]
]

first_token-StandsIn :
    (toks : List Text) (a line : Text)
    → first_token toks ≡ some a
    → Pieces toks line
    → StandsIn a line
first_token-StandsIn [] a line h _ = absurd (ground (arith, h))
first_token-StandsIn (tok ∷ toks) a line h (at, rest) = elim (Option-cases (address_of_token tok)) [
  | inl e ↦ first_token-StandsIn toks a line (ground (arith, h, e)) rest
  | inr (b, e) ↦ token-StandsIn tok a line (ground (arith, h, e)) at
]

pub first_address_token-StandsIn :
    (line a : Text) → first_address_token line ≡ some a → StandsIn a line
unfolding first_address_token
first_address_token-StandsIn line a h =
    first_token-StandsIn (split is_delimiter line) a line h (split-Pieces is_delimiter line)

-- All are phrases.
abbrev AllPhrases : List Text → Type 0
AllPhrases [] = Unit {0}
AllPhrases (p ∷ ps) = IsPhrase p × AllPhrases ps

known : AllPhrases known_phrases
known = (
  inl refl,
  (
    inr (inl refl),
    (
      inr (inr (inl refl)),
      (
        inr (inr (inr (inl refl))),
        (
          inr (inr (inr (inr (inl refl)))),
          (inr (inr (inr (inr (inr (inl refl))))), (inr (inr (inr (inr (inr (inr refl))))), tt)),
        ),
      ),
    ),
  ),
)

contained-IsPhrase :
    (ps : List Text) (line_lower : Text)
    → AllPhrases ps
    → any_contained ps line_lower ≡ true
    → (p : Text) × IsPhrase p × Occurs p line_lower
contained-IsPhrase [] line_lower _ h = absurd (ground (arith, h))
contained-IsPhrase (p ∷ ps) line_lower (phrase, rest) h =
    elim (Bool-cases (contains line_lower p)) [
      | inl here ↦ (p, phrase, contains-Occurs line_lower p here)
      | inr e ↦ contained-IsPhrase ps line_lower rest (ground (arith, h, e))
    ]

announces-IsPhrase :
    (line_lower : Text)
    → announces line_lower ≡ true
    → (p : Text) × IsPhrase p × Occurs p line_lower
announces-IsPhrase line_lower h = contained-IsPhrase known_phrases line_lower known h

pub announced-Announcement :
    (lowers ls : List Text) (a : Text) → announced lowers ls ≡ some a → Announcement lowers ls a
unfolding announced
announced-Announcement [] ls a h = cc
announced-Announcement (l ∷ lowers) [] a h = cc
announced-Announcement (l ∷ lowers) (line ∷ ls) a h = elim (Bool-cases (announces l)) [
  | inr e ↦ below (announced-Announcement lowers ls a (ground (arith, h, e)))
  | inl e ↦ elim (Option-cases (first_address_token line)) [
    | inl n ↦ below (announced-Announcement lowers ls a (ground (arith, h, e, n)))
    | inr (b, f) ↦
        let found : first_address_token line ≡ some a = ground (arith, h, e, f) in
        let (p, phrase, at) = announces-IsPhrase l e in
        on_this_line p phrase at (first_address_token-StandsIn line a found) found
  ]
]

-- The text is one of the list.
abbrev Listed : Text → List Text → Type 0
Listed p [] = ⊥
Listed p (q ∷ qs) = (p ≡ q) ⊎ Listed p qs

IsPhrase-Listed : (p : Text) → IsPhrase p → Listed p known_phrases
IsPhrase-Listed p (inl e) = inl e
IsPhrase-Listed p (inr (inl e)) = inr (inl e)
IsPhrase-Listed p (inr (inr (inl e))) = inr (inr (inl e))
IsPhrase-Listed p (inr (inr (inr (inl e)))) = inr (inr (inr (inl e)))
IsPhrase-Listed p (inr (inr (inr (inr (inl e))))) = inr (inr (inr (inr (inl e))))
IsPhrase-Listed p (inr (inr (inr (inr (inr (inl e)))))) = inr (inr (inr (inr (inr (inl e)))))
IsPhrase-Listed p (inr (inr (inr (inr (inr (inr e)))))) = inr (inr (inr (inr (inr (inr (inl e))))))

Listed-any_contained :
    (p : Text) (ps : List Text) (line_lower : Text)
    → Listed p ps
    → contains line_lower p ≡ true
    → any_contained ps line_lower ≡ true
Listed-any_contained p [] l i h = absurd i
Listed-any_contained p (q ∷ qs) l (inl e) h = rw (← e, h) refl
Listed-any_contained p (q ∷ qs) l (inr i) h = ground (arith, Listed-any_contained p qs l i h)

-- The first pass finds something where a line announces an address.
pub Announcement-announced :
    (lowers ls : List Text) (a : Text) → Announcement lowers ls a → announced lowers ls ≢ none
unfolding announced
Announcement-announced _ _ a (on_this_line {line_lower = l} {line = line} p phrase at _ found) h =
    let here : announces l ≡ true =
      Listed-any_contained p known_phrases l (IsPhrase-Listed p phrase) ((contains_iff l p).1 at) in
    ground (arith, here, found, h)
Announcement-announced _ _ a (below {line_lower = l} {line = line} {lowers = lowers} {ls = ls} rest)
      h =
    elim (Option-cases (announced lowers ls)) [
      | inl e ↦ Announcement-announced lowers ls a rest e
      | inr (b, e) ↦ elim (Bool-cases (announces l)) [
        | inr f ↦ ground (arith, h, e, f)
        | inl f ↦ elim (Option-cases (first_address_token line)) [
          | inl g ↦ ground (arith, h, e, f, g)
          | inr (c, g) ↦ ground (arith, h, e, f, g)
        ]
      ]
    ]
