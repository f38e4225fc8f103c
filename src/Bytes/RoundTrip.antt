-- ===== src/Bytes/RoundTrip.antt =====
-- `to_be_bytes` against `from_be_bytes`.
use stylus_mobile_native_aut.Base.{
  ℕ, zero, suc, ◌+◌, ◌*◌, ◌/◌, ◌%◌, ◌^◌, ◌<◌, ◌≡◌, refl, ap, sym, ◌∙◌, [], ◌∷◌, ◌++◌, length,
  length-append, arith,
}
use stylus_mobile_native_aut.Bytes.{Bytes, to_be_bytes, from_be, from_be_bytes}
use native.Mathlib.Nat.{pow-suc}

pub length-to_be_bytes : (k n : ℕ) → length (to_be_bytes k n) ≡ k
unfolding to_be_bytes
length-to_be_bytes zero n = refl
length-to_be_bytes (suc k) n = omega (
  arith,
  length-append {0} (to_be_bytes k (n / 256)) (n % 256 ∷ []),
  length-to_be_bytes k (n / 256),
)

from_be-append : (acc : ℕ) (xs ys : Bytes) → from_be acc (xs ++ ys) ≡ from_be (from_be acc xs) ys
unfolding from_be
from_be-append acc [] ys = refl
from_be-append acc (x ∷ xs) ys = from_be-append (acc * 256 + x) xs ys

below_div : (k n : ℕ) → n < 256 ^ suc k → n / 256 < 256 ^ k
below_div k n h = omega (arith, pow-suc 256 k)

-- A number that fits in `k` bytes is read back from them.
pub from_be_bytes-to_be_bytes : (k n : ℕ) → n < 256 ^ k → from_be_bytes (to_be_bytes k n) ≡ n
unfolding from_be_bytes to_be_bytes
from_be_bytes-to_be_bytes zero n h = omega arith
from_be_bytes-to_be_bytes (suc k) n h =
    from_be-append 0 (to_be_bytes k (n / 256)) (n % 256 ∷ [])
    ∙ omega (arith, from_be_bytes-to_be_bytes k (n / 256) (below_div k n h))

pub to_be_bytes-injective :
    (k m n : ℕ) → m < 256 ^ k → n < 256 ^ k → to_be_bytes k m ≡ to_be_bytes k n → m ≡ n
to_be_bytes-injective k m n hm hn e =
    sym (from_be_bytes-to_be_bytes k m hm) ∙ (ap from_be_bytes e ∙ from_be_bytes-to_be_bytes k n hn)
