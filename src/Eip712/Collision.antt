-- ===== src/Eip712/Collision.antt =====
-- Collisions of the hash function among the strings that a computation hashes. keccak-256 is not
-- injective, so no theorem says that its digests determine their input: each exhibits two different
-- strings, both hashed by the code, that have one digest.
use stylus_mobile_native_aut.Base.{ℕ, ◌≡◌, ◌≢◌, ◌⊎◌, inl, inr, List, [], ◌∷◌, ℕ_discrete}
use stylus_mobile_native_aut.Bytes.{Bytes}

Bytes-discrete : Discrete Bytes
Bytes-discrete = hlevel ℕ_discrete

-- `x` is one of the strings.
abbrev pub In : Bytes → List Bytes → Type 0
In x [] = ⊥
In x (y ∷ ys) = (x ≡ y) ⊎ In x ys

module _ (keccak : Bytes → ℕ) where
  -- One string of `xs` and one of `ys` differ and have the same digest.
  pub record Collision (xs ys : List Bytes) : Type 0 where
    pub left : Bytes
    pub right : Bytes
    pub left_in : In left xs
    pub right_in : In right ys
    pub differ : left ≢ right
    pub same_digest : keccak left ≡ keccak right

  -- Equal digests: the strings are equal, or they collide.
  pub equal_or_collide :
      (a b : Bytes) {xs ys : List Bytes}
      → In a xs
      → In b ys
      → keccak a ≡ keccak b
      → (a ≡ b) ⊎ Collision xs ys
  equal_or_collide a b i j e = elim (Bytes-discrete a b) [
    | yes same ↦ inl same
    | no other ↦
        inr (record {
          left = a;
          right = b;
          left_in = i;
          right_in = j;
          differ = other;
          same_digest = e;
        })
  ]

  pub Collision-cons :
      {xs ys : List Bytes} (x y : Bytes) → Collision xs ys → Collision (x ∷ xs) (y ∷ ys)
  Collision-cons x y c = record {
    left = c.left;
    right = c.right;
    left_in = inr c.left_in;
    right_in = inr c.right_in;
    differ = c.differ;
    same_digest = c.same_digest;
  }

-- The next step of an argument that may end in a collision.
pub and_then : {P Q C : Type 0} → P ⊎ C → (P → Q ⊎ C) → Q ⊎ C
and_then (inl p) f = f p
and_then (inr c) f = inr c

pub map_both : {P Q C D : Type 0} → (P → Q) → (C → D) → P ⊎ C → Q ⊎ D
map_both f g (inl p) = inl (f p)
map_both f g (inr c) = inr (g c)
