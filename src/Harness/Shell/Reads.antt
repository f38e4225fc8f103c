-- ===== src/Harness/Shell/Reads.antt =====
-- What the harness reads from the tools' output: the word that cast prints, and the numbers.
use stylus_mobile_native_aut.Base.{
  ℕ, zero, suc, ◌+◌, ◌-◌, ◌*◌, ◌/◌, ◌%◌, ◌^◌, ◌<◌, ◌≤◌, ◌≡◌, refl, ap, ◌∙◌, inl, inr, true, false,
  [], ◌∷◌, ◌++◌, Option, some, ok, length, length-append, replicate, ◌==◌, eq→==, Bool-cases,
  ltb→lt, lt→ltb, ltb, arith,
}
use stylus_mobile_native_aut.Bytes.{Bytes, from_be, from_be_bytes}
use stylus_mobile_native_aut.Receivers.{bytes_eq}
use stylus_mobile_native_aut.Harness.{hex_nibble}
use stylus_mobile_native_aut.Harness.Output.{Text, all, is_ascii_hexdigit, trim}
use stylus_mobile_native_aut.Harness.Shell.{
  read_u256, padded, without_0x, decimal, to_string, parse_digits, parse_u64,
}

-- The number that hexadecimal digits spell, after the digits read so far.
abbrev pub hex_value : ℕ → Text → ℕ
hex_value acc [] = acc
hex_value acc (c ∷ cs) = hex_value (acc * 16 + hex_nibble c) cs

-- Two digits to a byte.
abbrev pub byte_pairs : Text → Bytes
byte_pairs (a ∷ (b ∷ cs)) = (hex_nibble a * 16 + hex_nibble b) ∷ byte_pairs cs
byte_pairs _ = []

from_be-byte_pairs :
    (k acc : ℕ) (cs : Text)
    → length cs ≡ k + k
    → (length (byte_pairs cs) ≡ k) × (from_be acc (byte_pairs cs) ≡ hex_value acc cs)
unfolding from_be
from_be-byte_pairs zero acc [] h = (refl, refl)
from_be-byte_pairs (suc k) acc [] h = absurd (omega arith)
from_be-byte_pairs k acc (a ∷ []) h = absurd (omega arith)
from_be-byte_pairs zero acc (a ∷ (b ∷ cs)) h = absurd (omega arith)
from_be-byte_pairs (suc k) acc (a ∷ (b ∷ cs)) h =
    let next = acc * 256 + (hex_nibble a * 16 + hex_nibble b) in
    let same : next ≡ (acc * 16 + hex_nibble a) * 16 + hex_nibble b = omega arith in
    let (size, value) = from_be-byte_pairs k next cs (omega arith) in
    (ap suc size, value ∙ ap (λ n. hex_value n cs) same)

-- Zeros in front change neither the value nor that all are digits.
hex_value-zeros : (k : ℕ) (cs : Text) → hex_value 0 (replicate k b'0' ++ cs) ≡ hex_value 0 cs
unfolding hex_nibble
hex_value-zeros zero cs = refl
hex_value-zeros (suc k) cs = hex_value-zeros k cs

all-zeros :
    (k : ℕ) (cs : Text)
    → all is_ascii_hexdigit cs ≡ true
    → all is_ascii_hexdigit (replicate k b'0' ++ cs) ≡ true
all-zeros zero cs h = h
all-zeros (suc k) cs h = all-zeros k cs h

length-zeros : (k : ℕ) → length {A = ℕ} (replicate k b'0') ≡ k
length-zeros zero = refl
length-zeros (suc k) = ap suc (length-zeros k)

length-padded : (cs : Text) → length cs ≤ 64 → length (padded cs) ≡ 64
length-padded cs h =
    let k = 64 - length cs in omega (arith, length-append (replicate k b'0') cs, length-zeros k, h)

module _ (hex_decode : Text → Option Bytes)
    (decodes : (cs : Text) (k : ℕ)
      → length cs ≡ k + k
      → all is_ascii_hexdigit cs ≡ true
      → hex_decode cs ≡ some (byte_pairs cs)) where
  -- If hex::decode reads an even number of hexadecimal digits as their bytes, then `cast_call_u256`
  -- reads any output that is, without white space at its ends and with `0x` in front or not, at most
  -- 64 hexadecimal digits as the 32 bytes of the number that they spell: the zeros that the padding
  -- puts in front do not change it.
  pub read_u256-value :
      (out cs : Text)
      → without_0x (trim out) ≡ cs
      → all is_ascii_hexdigit cs ≡ true
      → length cs ≤ 64
      → (bytes : Bytes) × (read_u256 hex_decode out ≡ ok bytes)
        × (length bytes ≡ 32)
        × (from_be_bytes bytes ≡ hex_value 0 cs)
  unfolding read_u256 from_be_bytes
  read_u256-value out cs bare hex short =
      let digits = padded cs in
      let full = length-padded cs short in
      let read = decodes digits 32 full (all-zeros (64 - length cs) cs hex) in
      let (size, value) = from_be-byte_pairs 32 0 digits full in
      (
        byte_pairs digits,
        rw (read_u256, bare, read, eq→== _ _ size) refl,
        size,
        value ∙ hex_value-zeros (64 - length cs) cs,
      )

-- The digits of a number below 10^k, read back.
parse_digits-append :
    (acc : ℕ) (cs ds : Text) (n : ℕ)
    → parse_digits acc cs ≡ some n
    → parse_digits acc (cs ++ ds) ≡ parse_digits n ds
unfolding parse_digits
parse_digits-append acc [] ds n h = ground (arith, h)
parse_digits-append acc (c ∷ cs) ds n h =
    ground (arith, h, parse_digits-append (acc * 10 + (c - b'0')) cs ds n)

digit_read : (n d : ℕ) → d < 10 → parse_digits n ((b'0' + d) ∷ []) ≡ some (n * 10 + d)
unfolding parse_digits
digit_read n d h = ground (arith, h)

last_digit :
    (n : ℕ) (digits : Text)
    → parse_digits 0 digits ≡ some (n / 10)
    → parse_digits 0 (digits ++ ((b'0' + n % 10) ∷ [])) ≡ some n
last_digit n digits h =
    parse_digits-append 0 digits _ (n / 10) h
    ∙ digit_read (n / 10) (n % 10) (omega arith)
    ∙ ap some (omega arith)

parse_digits-decimal : (k n : ℕ) → n < 10 ^ suc k → parse_digits 0 (decimal (suc k) n) ≡ some n
unfolding decimal
parse_digits-decimal zero n h =
    rw (lt→ltb n 10 (omega (arith, h))) (digit_read 0 n (omega (arith, h)) ∙ ap some (omega arith))
parse_digits-decimal (suc k) n h = elim (Bool-cases (ltb n 10)) [
  | inl one ↦ rw one (digit_read 0 n (ltb→lt n 10 one) ∙ ap some (omega arith))
  | inr more ↦
      rw more (
        last_digit n (decimal (suc k) (n / 10))
          (parse_digits-decimal k (n / 10) (omega (arith, h))))
]

unsigned : (c : ℕ) (cs : Text) (n : ℕ) → parse_digits 0 (c ∷ cs) ≡ some n → (c == b'+') ≡ false
unfolding parse_digits
unsigned c cs n h = ground (arith, h)

-- No digit is a sign, so a text of digits is parsed as its digits are.
parse_u64-digits :
    (c : ℕ) (cs : Text) (n : ℕ)
    → parse_digits 0 (c ∷ cs) ≡ some n
    → n < 2 ^ 64
    → parse_u64 (c ∷ cs) ≡ some n
unfolding parse_u64
parse_u64-digits c [] n h small = rw (h, lt→ltb n (2 ^ 64) small) refl
parse_u64-digits c (d ∷ cs) n h small =
    rw (unsigned c (d ∷ cs) n h, h, lt→ltb n (2 ^ 64) small) refl

length-decimal : (k n : ℕ) → 0 < length (decimal (suc k) n)
unfolding decimal
length-decimal k n = elim (Bool-cases (ltb n 10)) [
  | inl one ↦ rw one (omega arith)
  | inr more ↦
      rw more (omega (arith, length-append {0} (decimal k (n / 10)) ((b'0' + n % 10) ∷ [])))
]

parse_u64-nonempty :
    (cs : Text) (n : ℕ)
    → 0 < length cs
    → parse_digits 0 cs ≡ some n
    → n < 2 ^ 64
    → parse_u64 cs ≡ some n
parse_u64-nonempty [] n more h small = absurd (omega arith)
parse_u64-nonempty (c ∷ cs) n more h small = parse_u64-digits c cs n h small

-- A number below 2^64 is printed with at most 20 digits, and parsed from them.
pub parse_u64-to_string : (n : ℕ) → n < 2 ^ 64 → parse_u64 (to_string n) ≡ some n
unfolding to_string
parse_u64-to_string n small =
    parse_u64-nonempty (decimal 20 n) n (length-decimal 19 n)
      (parse_digits-decimal 19 n (omega (arith, small))) small

one_more : (xs : Text) (c d : ℕ) → 0 < length xs → bytes_eq (xs ++ (d ∷ [])) (c ∷ []) ≡ false
one_more [] c d h = absurd (omega arith)
one_more (x ∷ []) c d h = ground arith
one_more (x ∷ (y ∷ ys)) c d h = ground arith

-- The text `1` is printed for 1 only.
pub decimal-one : (k n : ℕ) → bytes_eq (decimal (suc (suc k)) n) (b'1' ∷ []) ≡ (n == 1)
unfolding decimal
decimal-one k n = elim (Bool-cases (ltb n 10)) [
  | inl one ↦ rw one (ground arith)
  | inr more ↦
      let tail =
        one_more (decimal (suc k) (n / 10)) b'1' (b'0' + n % 10) (length-decimal k (n / 10)) in
      let big : (n == 1) ≡ false = ground (arith, more) in rw (more, big) tail
]
