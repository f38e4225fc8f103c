-- ===== src/Bytes.antt =====
-- Fixed-width integers and byte strings, as the account uses them through alloy's `U256`, `B256`,
-- `Address` and Rust's slices: a value of any of these types is the number that its big-endian
-- bytes spell, a byte string is a list of numbers.
pub mod RoundTrip
pub mod Valid
use stylus_mobile_native_aut.Base.{
  ℕ, zero, suc, ◌+◌, ◌-◌, ◌*◌, ◌/◌, ◌%◌, ◌^◌, ◌<◌, List, [], ◌∷◌, ◌++◌, ◌&&◌, length, take, drop,
  replicate, leb, ◌==◌, if◌then◌else◌,
}

abbrev pub Bytes : Type 0
Bytes = List ℕ

-- The moduli of `U256`, `u64`; the bound of an `Address`.
abbrev pub u256_mod : ℕ
u256_mod = 2 ^ 256

abbrev pub u64_mod : ℕ
u64_mod = 2 ^ 64

abbrev pub IsU256 : ℕ → Type 0
IsU256 n = n < 2 ^ 256

abbrev pub IsU64 : ℕ → Type 0
IsU64 n = n < 2 ^ 64

abbrev pub IsAddress : ℕ → Type 0
IsAddress n = n < 2 ^ 160

-- `to_be_bytes` (and `as_slice` of a fixed-size byte string): the `k` low bytes, highest first.
unfoldable pub to_be_bytes : ℕ → ℕ → Bytes
to_be_bytes zero n = []
to_be_bytes (suc k) n = to_be_bytes k (n / 256) ++ (n % 256 ∷ [])

-- `from_be_slice` and `from_be_bytes`, from the bytes read so far.
unfoldable pub from_be : ℕ → Bytes → ℕ
from_be acc [] = acc
from_be acc (b ∷ bs) = from_be (acc * 256 + b) bs

unfoldable pub from_be_bytes : Bytes → ℕ
unfolding from_be
from_be_bytes = from_be 0

-- `[0u8; n]`
abbrev pub zeros : ℕ → Bytes
zeros n = replicate n 0

-- `&xs[lo..hi]`
abbrev pub slice : ℕ → ℕ → Bytes → Bytes
slice lo hi xs = take (hi - lo) (drop lo xs)

-- `buf[lo..hi].copy_from_slice(src)`. Rust panics where the lengths differ or the range is out of
-- bounds; the empty buffer stands for that, and no buffer below becomes it.
abbrev pub copy_from_slice : ℕ → ℕ → Bytes → Bytes → Bytes
copy_from_slice lo hi src buf =
    if leb lo hi && (hi - lo == length src) && leb hi (length buf)
    then take lo buf ++ (src ++ drop hi buf)
    else []
