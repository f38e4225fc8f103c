-- ===== src/Harness/Output/Occurs.antt =====
-- `contains` of a text, and the pieces that `split` leaves: they stand in the text.
use stylus_mobile_native_aut.Base.{
  ℕ, ◌≡◌, ◌↔◌, refl, ap, ap₂, Bool, true, List, [], ◌∷◌, ◌++◌, ◌==◌, Bool-cases, inl, inr, &&_iff,
  ==→eq, eq→==, arith,
}
use stylus_mobile_native_aut.Harness.Output.{Text, contains, starts_with, split, join_first}

-- The text stands somewhere in the other.
abbrev pub Occurs : Text → Text → Type 0
Occurs p src = (before after : Text) × (src ≡ before ++ (p ++ after))

starts_with-append : (p rest : Text) → starts_with (p ++ rest) p ≡ true
unfolding starts_with
starts_with-append [] [] = refl
starts_with-append [] (c ∷ cs) = refl
starts_with-append (c ∷ cs) rest = rw (eq→== c c refl) (starts_with-append cs rest)

prefix-found : (src p : Text) → starts_with src p ≡ true → (rest : Text) × (src ≡ p ++ rest)
unfolding starts_with
prefix-found src [] h = (src, refl)
prefix-found [] (c ∷ cs) h = absurd (ground (arith, h))
prefix-found (b ∷ bs) (c ∷ cs) h =
    let both = (&&_iff (b == c) (starts_with bs cs)).0 h in
    let (rest, e) = prefix-found bs cs both.1 in (rest, ap₂ (λ x xs. x ∷ xs) (==→eq b c both.0) e)

contains-here : (src p : Text) → starts_with src p ≡ true → contains src p ≡ true
unfolding contains
contains-here [] p h = h
contains-here (c ∷ cs) p h = rw h refl

contains-append : (before p after : Text) → contains (before ++ (p ++ after)) p ≡ true
unfolding contains
contains-append [] p after = contains-here (p ++ after) p (starts_with-append p after)
contains-append (c ∷ cs) p after = elim (Bool-cases (starts_with (c ∷ (cs ++ (p ++ after))) p)) [
  | inl here ↦ rw here refl
  | inr later ↦ rw later (contains-append cs p after)
]

pub contains-Occurs : (src p : Text) → contains src p ≡ true → Occurs p src
unfolding contains
contains-Occurs [] p h = let (rest, e) = prefix-found [] p h in ([], rest, e)
contains-Occurs (c ∷ cs) p h = elim (Bool-cases (starts_with (c ∷ cs) p)) [
  | inl here ↦ let (rest, e) = prefix-found (c ∷ cs) p here in ([], rest, e)
  | inr later ↦
      let (before, after, e) = contains-Occurs cs p (ground (arith, h, later)) in
      (c ∷ before, after, ap (λ xs. c ∷ xs) e)
]

-- `contains` finds a text exactly where it occurs.
pub contains_iff : (src p : Text) → (contains src p ≡ true) ↔ Occurs p src
contains_iff src p =
    (contains-Occurs src p, λ (before, after, e). rw e (contains-append before p after))

-- Every piece stands in the text.
abbrev pub Pieces : List Text → Text → Type 0
Pieces [] s = Unit {0}
Pieces (t ∷ ts) s = Occurs t s × Pieces ts s

-- The text starts with the first piece.
abbrev Leads : List Text → Text → Type 0
Leads [] s = Unit {0}
Leads (t ∷ ts) s = (after : Text) × (s ≡ t ++ after)

Pieces-later : (c : ℕ) (ts : List Text) (s : Text) → Pieces ts s → Pieces ts (c ∷ s)
Pieces-later c [] s _ = tt
Pieces-later c (t ∷ ts) s ((before, after, e), rest) =
    ((c ∷ before, after, ap (λ xs. c ∷ xs) e), Pieces-later c ts s rest)

join_first-Pieces :
    (c : ℕ) (ts : List Text) (s : Text)
    → Leads ts s
    → Pieces ts s
    → Leads (join_first c ts) (c ∷ s) × Pieces (join_first c ts) (c ∷ s)
join_first-Pieces c [] s _ _ = ((s, refl), (([], s, refl), tt))
join_first-Pieces c (t ∷ ts) s (after, e) (_, rest) =
    let whole = ap (λ xs. c ∷ xs) e in
    ((after, whole), (([], after, whole), Pieces-later c ts s rest))

split-both : (p : ℕ → Bool) (s : Text) → Leads (split p s) s × Pieces (split p s) s
unfolding split
split-both p [] = (([], refl), (([], [], refl), tt))
split-both p (c ∷ cs) =
    let (leads, pieces) = split-both p cs in
    elim (Bool-cases (p c)) [
      | inl e ↦ rw e ((c ∷ cs, refl), (([], c ∷ cs, refl), Pieces-later c _ cs pieces))
      | inr e ↦ rw e (join_first-Pieces c _ cs leads pieces)
    ]

pub split-Pieces : (p : ℕ → Bool) (s : Text) → Pieces (split p s) s
split-Pieces p s = (split-both p s).1
