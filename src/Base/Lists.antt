-- ===== src/Base/Lists.antt =====
-- Lists measured and cut by native numbers, under the library's names.
use Prim.Native.Nat.{ℕ, zero, suc, ◌+◌, ◌-◌, ◌≤◌}
use mathlib.Core.Path.{◌≡◌, refl, ap, ap₂}
use mathlib.Core.List.{List, [], ◌∷◌, ◌++◌}
use mathlib.Core.Option.{Option, none, some}
use native.Mathlib.Omega.{arith}

module _ {ℓ} {A : Type ℓ} where
  abbrev pub length : List A → ℕ
  length [] = 0
  length (x ∷ xs) = suc (length xs)

  abbrev pub get_elem? : List A → ℕ → Option A
  get_elem? [] i = none
  get_elem? (x ∷ xs) zero = some x
  get_elem? (x ∷ xs) (suc i) = get_elem? xs i

  abbrev pub take : ℕ → List A → List A
  take zero xs = []
  take (suc n) [] = []
  take (suc n) (x ∷ xs) = x ∷ take n xs

  abbrev pub drop : ℕ → List A → List A
  drop zero xs = xs
  drop (suc n) [] = []
  drop (suc n) (x ∷ xs) = drop n xs

  abbrev pub replicate : ℕ → A → List A
  replicate zero a = []
  replicate (suc n) a = a ∷ replicate n a

  pub length-append : (xs ys : List A) → length (xs ++ ys) ≡ length xs + length ys
  length-append [] ys = omega arith
  length-append (x ∷ xs) ys = omega (arith, length-append xs ys)

  pub take_of_length : (n : ℕ) (xs ys : List A) → length xs ≡ n → take n (xs ++ ys) ≡ xs
  take_of_length zero [] ys h = refl
  take_of_length zero (x ∷ xs) ys h = absurd (omega arith)
  take_of_length (suc n) [] ys h = absurd (omega arith)
  take_of_length (suc n) (x ∷ xs) ys h = ap (λ l. x ∷ l) (take_of_length n xs ys (omega arith))

  pub drop_of_length : (n : ℕ) (xs ys : List A) → length xs ≡ n → drop n (xs ++ ys) ≡ ys
  drop_of_length zero [] ys h = refl
  drop_of_length zero (x ∷ xs) ys h = absurd (omega arith)
  drop_of_length (suc n) [] ys h = absurd (omega arith)
  drop_of_length (suc n) (x ∷ xs) ys h = drop_of_length n xs ys (omega arith)

  pub take_whole : (n : ℕ) (xs : List A) → length xs ≡ n → take n xs ≡ xs
  take_whole zero [] h = refl
  take_whole zero (x ∷ xs) h = absurd (omega arith)
  take_whole (suc n) [] h = absurd (omega arith)
  take_whole (suc n) (x ∷ xs) h = ap (λ l. x ∷ l) (take_whole n xs (omega arith))

  -- Equal concatenations whose first parts have one length have equal parts.
  pub append-cancel :
      (xs ys : List A) {zs ws : List A}
      → length xs ≡ length ys
      → xs ++ zs ≡ ys ++ ws
      → (xs ≡ ys) × (zs ≡ ws)
  append-cancel [] [] h e = (refl, e)
  append-cancel [] (y ∷ ys) h e = absurd (omega arith)
  append-cancel (x ∷ xs) [] h e = absurd (omega arith)
  append-cancel (x ∷ xs) (y ∷ ys) {zs} {ws} h e =
      let tails : xs ++ zs ≡ ys ++ ws = cc in
      let rest = append-cancel xs ys (omega arith) tails in
      let heads : x ≡ y = cc in (ap₂ ◌∷◌ heads rest.0, rest.1)

  pub length-take : (n : ℕ) (xs : List A) → n ≤ length xs → length (take n xs) ≡ n
  length-take zero xs h = refl
  length-take (suc n) [] h = absurd (omega arith)
  length-take (suc n) (x ∷ xs) h = omega (arith, length-take n xs (omega arith))

  pub length-drop : (n : ℕ) (xs : List A) → length (drop n xs) ≡ length xs - n
  length-drop zero xs = omega arith
  length-drop (suc n) [] = omega arith
  length-drop (suc n) (x ∷ xs) = omega (arith, length-drop n xs)

  pub take-drop : (n : ℕ) (xs : List A) → take n xs ++ drop n xs ≡ xs
  take-drop zero xs = refl
  take-drop (suc n) [] = refl
  take-drop (suc n) (x ∷ xs) = ap (λ l. x ∷ l) (take-drop n xs)
