-- ===== src/Examples/Keccak.antt =====
-- keccak-256, written out, as a concrete hash function for the tests of the type hashes.
use Prim.Native.Nat.{bit_xor, bit_and}
use stylus_mobile_native_aut.Bytes.Valid.{AreBytes, from_be-below}
use stylus_mobile_native_aut.Base.{
  ℕ, zero, suc, ◌+◌, ◌-◌, ◌*◌, ◌/◌, ◌%◌, ◌^◌, ◌≡◌, refl, arith, List, [], ◌∷◌, ◌++◌, length,
  replicate, take, drop,
}
use stylus_mobile_native_aut.Bytes.{Bytes, IsU256, from_be_bytes}

-- Lanes of 64 bits.
abbrev rotate_left : ℕ → ℕ → ℕ
rotate_left n v = v * 2 ^ n % 2 ^ 64 + v / 2 ^ (64 - n)

abbrev column : ℕ → ℕ → ℕ → ℕ → ℕ → ℕ
column a b c d e = bit_xor a (bit_xor b (bit_xor c (bit_xor d e)))

-- A column's lanes take the parities of the columns at its sides.
abbrev theta : ℕ → ℕ → ℕ
theta before after = bit_xor before (rotate_left 1 after)

-- The lane `a`, where `b` and `c` follow it in its row.
abbrev chi : ℕ → ℕ → ℕ → ℕ
chi a b c = bit_xor a (bit_and (2 ^ 64 - 1 - b) c)

pub data Row : Type 0 where
  row : ℕ → ℕ → ℕ → ℕ → ℕ → Row

pub data State : Type 0 where
  state : Row → Row → Row → Row → Row → State

abbrev chi_row : ℕ → ℕ → ℕ → ℕ → ℕ → Row
chi_row a b c d e = row (chi a b c) (chi b c d) (chi c d e) (chi d e a) (chi e a b)

abbrev iota : ℕ → Row → Row
iota rc (row a b c d e) = row (bit_xor a rc) b c d e

abbrev round : State → ℕ → State
round
      (state
        (row a0 b0 c0 d0 e0)
        (row a1 b1 c1 d1 e1)
        (row a2 b2 c2 d2 e2)
        (row a3 b3 c3 d3 e3)
        (row a4 b4 c4 d4 e4))
      rc =
    let c0_ = column a0 a1 a2 a3 a4 in
    let c1_ = column b0 b1 b2 b3 b4 in
    let c2_ = column c0 c1 c2 c3 c4 in
    let c3_ = column d0 d1 d2 d3 d4 in
    let c4_ = column e0 e1 e2 e3 e4 in
    let d0_ = theta c4_ c1_ in
    let d1_ = theta c0_ c2_ in
    let d2_ = theta c1_ c3_ in
    let d3_ = theta c2_ c4_ in
    let d4_ = theta c3_ c0_ in
    state
      (iota rc (
        chi_row (rotate_left 0 (bit_xor a0 d0_)) (rotate_left 44 (bit_xor b1 d1_))
          (rotate_left 43 (bit_xor c2 d2_)) (rotate_left 21 (bit_xor d3 d3_))
          (rotate_left 14 (bit_xor e4 d4_))))
      (chi_row (rotate_left 28 (bit_xor d0 d3_)) (rotate_left 20 (bit_xor e1 d4_))
        (rotate_left 3 (bit_xor a2 d0_)) (rotate_left 45 (bit_xor b3 d1_))
        (rotate_left 61 (bit_xor c4 d2_)))
      (chi_row (rotate_left 1 (bit_xor b0 d1_)) (rotate_left 6 (bit_xor c1 d2_))
        (rotate_left 25 (bit_xor d2 d3_)) (rotate_left 8 (bit_xor e3 d4_))
        (rotate_left 18 (bit_xor a4 d0_)))
      (chi_row (rotate_left 27 (bit_xor e0 d4_)) (rotate_left 36 (bit_xor a1 d0_))
        (rotate_left 10 (bit_xor b2 d1_)) (rotate_left 15 (bit_xor c3 d2_))
        (rotate_left 56 (bit_xor d4 d3_)))
      (chi_row (rotate_left 62 (bit_xor c0 d2_)) (rotate_left 55 (bit_xor d1 d3_))
        (rotate_left 39 (bit_xor e2 d4_)) (rotate_left 41 (bit_xor a3 d0_))
        (rotate_left 2 (bit_xor b4 d1_)))

abbrev round_constants : List ℕ
round_constants =
    0x1 ∷ 0x8082 ∷ 0x800000000000808a ∷ 0x8000000080008000 ∷ 0x808b ∷ 0x80000001
    ∷ 0x8000000080008081 ∷ 0x8000000000008009 ∷ 0x8a ∷ 0x88 ∷ 0x80008009 ∷ 0x8000000a ∷ 0x8000808b
    ∷ 0x800000000000008b ∷ 0x8000000000008089 ∷ 0x8000000000008003 ∷ 0x8000000000008002
    ∷ 0x8000000000000080 ∷ 0x800a ∷ 0x800000008000000a ∷ 0x8000000080008081 ∷ 0x8000000000008080
    ∷ 0x80000001 ∷ 0x8000000080008008 ∷ []

abbrev permute : List ℕ → State → State
permute [] s = s
permute (rc ∷ rcs) s = permute rcs (round s rc)

-- The number of little-endian bytes.
abbrev from_le : Bytes → ℕ
from_le [] = 0
from_le (b ∷ bs) = b + 256 * from_le bs

abbrev to_le : ℕ → ℕ → Bytes
to_le zero n = []
to_le (suc k) n = n % 256 ∷ to_le k (n / 256)

-- Lane `i` of a block of 17 lanes.
abbrev lane : Bytes → ℕ → ℕ
lane block i = from_le (take 8 (drop (8 * i) block))

abbrev absorb : Bytes → State → State
absorb m
      (state
        (row a0 b0 c0 d0 e0)
        (row a1 b1 c1 d1 e1)
        (row a2 b2 c2 d2 e2)
        (row a3 b3 c3 d3 e3)
        (row a4 b4 c4 d4 e4)) =
    state
      (row (bit_xor a0 (lane m 0)) (bit_xor b0 (lane m 1)) (bit_xor c0 (lane m 2))
        (bit_xor d0 (lane m 3)) (bit_xor e0 (lane m 4)))
      (row (bit_xor a1 (lane m 5)) (bit_xor b1 (lane m 6)) (bit_xor c1 (lane m 7))
        (bit_xor d1 (lane m 8)) (bit_xor e1 (lane m 9)))
      (row (bit_xor a2 (lane m 10)) (bit_xor b2 (lane m 11)) (bit_xor c2 (lane m 12))
        (bit_xor d2 (lane m 13)) (bit_xor e2 (lane m 14)))
      (row (bit_xor a3 (lane m 15)) (bit_xor b3 (lane m 16)) c3 d3 e3) (row a4 b4 c4 d4 e4)

-- The bytes that fill the last block, of 136 bytes.
abbrev padding : ℕ → Bytes
padding zero = []
padding (suc zero) = 0x81 ∷ []
padding (suc (suc n)) = 0x01 ∷ replicate n 0 ++ (0x80 ∷ [])

abbrev blocks : ℕ → Bytes → State → State
blocks zero m s = s
blocks (suc n) m s = blocks n (drop 136 m) (permute round_constants (absorb (take 136 m) s))

abbrev squeeze : State → Bytes
squeeze (state (row a b c d e) r1 r2 r3 r4) = to_le 8 a ++ to_le 8 b ++ to_le 8 c ++ to_le 8 d

unfoldable pub keccak_256 : Bytes → ℕ
unfolding from_be_bytes
keccak_256 m =
    let r = row 0 0 0 0 0 in
    let padded = m ++ padding (136 - length m % 136) in
    from_be_bytes (squeeze (blocks (length m / 136 + 1) padded (state r r r r r)))

-- The digest of the empty string.
keccak_256_empty :
    keccak_256 [] ≡ 0xc5d2460186f7233c927e7db2dcc703c0e500b653ca82273b7bfad8045d85a470
unfolding keccak_256
keccak_256_empty = refl

squeeze-AreBytes : (s : State) → AreBytes (squeeze s)
squeeze-AreBytes (state (row a b c d e) r1 r2 r3 r4) = ground arith

length-squeeze : (s : State) → length (squeeze s) ≡ 32
length-squeeze (state (row a b c d e) r1 r2 r3 r4) = refl

-- The digests of keccak-256 are words, as the theorems on digests suppose.
keccak_256_word : (m : Bytes) → IsU256 (keccak_256 m)
unfolding keccak_256 from_be_bytes
keccak_256_word m =
    let r = row 0 0 0 0 0 in
    let padded = m ++ padding (136 - length m % 136) in
    let s = blocks (length m / 136 + 1) padded (state r r r r r) in
    from_be-below 32 0 0 (squeeze s) (omega (arith, length-squeeze s)) (squeeze-AreBytes s)
      (omega arith)
