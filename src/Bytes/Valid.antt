-- ===== src/Bytes/Valid.antt =====
-- Lists of numbers that are bytes, each below 256.
use stylus_mobile_native_aut.Base.{
  ℕ, zero, suc, ◌+◌, ◌*◌, ◌/◌, ◌%◌, ◌^◌, ◌<◌, ◌≡◌, ap, ap₂, sym, ◌∙◌, [], ◌∷◌, ◌++◌, length,
  append-nil, append_assoc, arith,
}
use stylus_mobile_native_aut.Bytes.{Bytes, to_be_bytes, from_be, from_be_bytes}

abbrev pub AreBytes : Bytes → Type 0
AreBytes [] = Unit {0}
AreBytes (b ∷ bs) = (b < 256) × AreBytes bs

pub append-AreBytes : (xs ys : Bytes) → AreBytes xs → AreBytes ys → AreBytes (xs ++ ys)
append-AreBytes [] ys h k = k
append-AreBytes (x ∷ xs) ys (h, hs) k = (h, append-AreBytes xs ys hs k)

pub to_be_bytes-AreBytes : (k n : ℕ) → AreBytes (to_be_bytes k n)
unfolding to_be_bytes
to_be_bytes-AreBytes zero n = tt
to_be_bytes-AreBytes (suc k) n =
    append-AreBytes (to_be_bytes k (n / 256)) (n % 256 ∷ []) (to_be_bytes-AreBytes k (n / 256))
      (omega arith, tt)

-- A number below 256^j, followed by the bytes `xs`.
pub from_be-below :
    (k j acc : ℕ) (xs : Bytes)
    → length xs + j ≡ k
    → AreBytes xs
    → acc < 256 ^ j
    → from_be acc xs < 256 ^ k
unfolding from_be
from_be-below k j acc [] e p h = let same : k ≡ j = omega (arith, e) in rw same h
from_be-below k j acc (x ∷ xs) e p h =
    from_be-below k (suc j) (acc * 256 + x) xs (omega (arith, e)) p.1 (omega (arith, h, p.0))

-- The bytes of a number whose low bytes are `xs` end with them.
to_be_bytes-from_be :
    (xs : Bytes) (k acc : ℕ)
    → AreBytes xs
    → to_be_bytes (k + length xs) (from_be acc xs) ≡ to_be_bytes k acc ++ xs
unfolding from_be to_be_bytes
to_be_bytes-from_be [] k acc h =
    let same : k + 0 ≡ k = omega arith in rw same (sym (append-nil (to_be_bytes k acc)))
to_be_bytes-from_be (x ∷ xs) k acc (h, hs) =
    let next = acc * 256 + x in
    let high : next / 256 ≡ acc = omega (arith, h) in
    let low : next % 256 ≡ x = omega (arith, h) in
    let moved : k + suc (length xs) ≡ suc k + length xs = omega arith in
    ap (λ n. to_be_bytes n (from_be next xs)) moved
    ∙ to_be_bytes-from_be xs (suc k) next hs
    ∙ ap₂ (λ a b. (to_be_bytes k a ++ (b ∷ [])) ++ xs) high low
    ∙ append_assoc (to_be_bytes k acc) (x ∷ []) xs

-- Bytes are the big-endian bytes of the number that they spell.
pub to_be_bytes-from_be_bytes :
    (k : ℕ) (xs : Bytes) → length xs ≡ k → AreBytes xs → to_be_bytes k (from_be_bytes xs) ≡ xs
unfolding from_be_bytes to_be_bytes
to_be_bytes-from_be_bytes k xs e h =
    let same : k ≡ 0 + length xs = omega (arith, e) in
    ap (λ n. to_be_bytes n (from_be 0 xs)) same ∙ to_be_bytes-from_be xs 0 0 h

pub from_be_bytes-below :
    (k : ℕ) (xs : Bytes) → length xs ≡ k → AreBytes xs → from_be_bytes xs < 256 ^ k
unfolding from_be_bytes
from_be_bytes-below k xs e h = from_be-below k 0 0 xs (omega (arith, e)) h (omega arith)
