-- ===== src/P256/Curve.antt =====
-- `is_on_curve` and the curve's equation.
use stylus_mobile_native_aut.Base.{
  ℕ, ◌+◌, ◌-◌, ◌*◌, ◌%◌, ◌<◌, ◌≡◌, refl, sym, ap, ◌∙◌, ◌↔◌, true, ◌/◌, arith, ==→eq, eq→==,
}
use native.Mathlib.Nat.{mul-add-mod_self_left, add-mul-mod_self_right, div-add-mod}
use stylus_mobile_native_aut.Bytes.{from_be_bytes}
use stylus_mobile_native_aut.P256.{p256_b, mul_mod, add_mod, sub_u256, is_on_curve, is_valid_pubkey}
use stylus_mobile_native_aut.P256.Values.{
  prime, coefficient, field_prime_value, is_valid_pubkey_component_iff,
}

coefficient_value : from_be_bytes p256_b ≡ coefficient
unfolding from_be_bytes
coefficient_value = refl

-- p − (3x mod p) is computed without wrapping, and is positive.
sub_u256-exact : (x : ℕ) → sub_u256 prime (mul_mod x 3 prime) ≡ prime - x * 3 % prime
sub_u256-exact x = omega arith

-- The right-hand side, with 3x moved to the left: no subtraction is left.
abbrev pub OnCurve : ℕ → ℕ → Type 0
OnCurve x y = (y * y + x * 3) % prime ≡ (x * x * x + coefficient) % prime

-- Reducing a factor first does not change a product's remainder.
mul-mod_reduce : (a b m : ℕ) → a % m * b % m ≡ a * b % m
mul-mod_reduce a b m =
    sym (mul-add-mod_self_left m (a / m * b) (a % m * b))
    ∙ ap (λ k. k % m) (split ∙ ap (λ k. k * b) (div-add-mod a m))
  where
    split : m * (a / m * b) + a % m * b ≡ (m * (a / m) + a % m) * b
    split = grind arith

equation :
    (a c t b : ℕ)
    → (a % prime ≡ ((c % prime + (prime - t % prime)) % prime + b) % prime)
      ↔ ((a + t) % prime ≡ (c + b) % prime)
equation a c t b = (λ h. omega arith, λ h. omega arith)

rhs_value :
    (x : ℕ)
    → add_mod
        (add_mod (mul_mod (mul_mod x x prime) x prime) (sub_u256 prime (mul_mod x 3 prime)) prime)
        coefficient
        prime
      ≡ ((x * x * x % prime + (prime - x * 3 % prime)) % prime + coefficient) % prime
rhs_value x = rw (mul-mod_reduce (x * x) x prime, sub_u256-exact x)

-- `is_on_curve` decides y² + 3x ≡ x³ + b (mod p), for every pair of words.
pub is_on_curve_iff : (x y : ℕ) → (is_on_curve x y ≡ true) ↔ OnCurve x y
unfolding is_on_curve
is_on_curve_iff x y =
    rw (field_prime_value, coefficient_value, rhs_value x)
      (
        λ h. (equation (y * y) (x * x * x) (x * 3) coefficient).0 (==→eq _ _ h),
        λ h. eq→== _ _ ((equation (y * y) (x * x * x) (x * 3) coefficient).1 h),
      )

-- A public key is accepted exactly if both coordinates lie in (0, p) and solve the curve's equation.
pub is_valid_pubkey_iff :
    (x y : ℕ)
    → (is_valid_pubkey x y ≡ true) ↔ (0 < x) × (x < prime) × (0 < y) × (y < prime) × OnCurve x y
unfolding is_valid_pubkey
is_valid_pubkey_iff x y =
    grind
      (arith, is_valid_pubkey_component_iff x, is_valid_pubkey_component_iff y, is_on_curve_iff x y)

square_balance : (z y m : ℕ) → z + y ≡ m → z * z + y * m ≡ y * y + z * m
square_balance z y m e = rw (← e) (grind arith)

square_reflected : (z y m : ℕ) → z + y ≡ m → z * z % m ≡ y * y % m
square_reflected z y m e =
    sym (add-mul-mod_self_right (z * z) y m)
    ∙ (ap (λ k. k % m) (square_balance z y m e) ∙ add-mul-mod_self_right (y * y) z m)

same_remainder : (a b t c : ℕ) → a % prime ≡ b % prime → (b + t) % prime ≡ c → (a + t) % prime ≡ c
same_remainder a b t c e h = omega arith

-- If a public key (x, y) is accepted, its mirror image (x, p − y) is accepted too.
pub is_valid_pubkey-reflected :
    (x y : ℕ) → is_valid_pubkey x y ≡ true → is_valid_pubkey x (prime - y) ≡ true
is_valid_pubkey-reflected x y h =
    let key = (is_valid_pubkey_iff x y).0 h in
    let mirrored = square_reflected (prime - y) y prime (omega (arith, key.3)) in
    (is_valid_pubkey_iff x (prime - y)).1 (
      key.0,
      key.1,
      omega (arith, key.3),
      omega (arith, key.2),
      same_remainder ((prime - y) * (prime - y)) (y * y) (x * 3) _ mirrored key.4,
    )
