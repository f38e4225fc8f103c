-- ===== src/Harness/Output.antt =====
-- The scanners of tool output in contracts/stylus/devnode-tests/src/main.rs: `strip_ansi`,
-- `first_address_token`, `extract_deployed_address` and `parse_addr`. A text is the list of its
-- characters' codes; letters are lowered in ASCII only.
pub mod Occurs
pub mod Announced
pub mod Address
pub mod Ansi
pub mod Parse
use Prim.Native.String.{String}
use stylus_mobile_native_aut.Base.{
  ℕ, zero, suc, ◌+◌, ◌-◌, ◌/◌, ◌%◌, Bool, true, false, ◌&&◌, ◌||◌, not, List, [], ◌∷◌, ◌++◌, Option,
  none, some, Result, ok, err, leb, ltb, ◌==◌, if◌then◌else◌, length,
}
use stylus_mobile_native_aut.Bytes.{Bytes}
use stylus_mobile_native_aut.Harness.{as_bytes}
use stylus_mobile_native_aut.Harness.Receipt.{
  to_ascii_lowercase, eq_ignore_ascii_case, trim_start_0x,
}

abbrev pub Text : Type 0
Text = List ℕ

abbrev pub is_ascii_alphabetic : ℕ → Bool
is_ascii_alphabetic c = (leb b'A' c && leb c b'Z') || (leb b'a' c && leb c b'z')

abbrev pub is_ascii_hexdigit : ℕ → Bool
is_ascii_hexdigit c =
    (leb b'0' c && leb c b'9') || (leb b'A' c && leb c b'F') || (leb b'a' c && leb c b'f')

-- `char::is_whitespace`
abbrev pub is_whitespace : ℕ → Bool
is_whitespace c =
    (leb 9 c && leb c 13)
    || (c == 0x20)
    || (c == 0x85)
    || (c == 0xa0)
    || (c == 0x1680)
    || (leb 0x2000 c && leb c 0x200a)
    || (c == 0x2028)
    || (c == 0x2029)
    || (c == 0x202f)
    || (c == 0x205f)
    || (c == 0x3000)

-- `as_bytes` of a text: its characters in UTF-8.
abbrev pub utf8_char : ℕ → Bytes
utf8_char c =
    if ltb c 0x80
    then c ∷ []
    else if ltb c 0x800
    then (0xc0 + c / 0x40) ∷ (0x80 + c % 0x40) ∷ []
    else if ltb c 0x10000
    then (0xe0 + c / 0x1000) ∷ (0x80 + c / 0x40 % 0x40) ∷ (0x80 + c % 0x40) ∷ []
    else (0xf0 + c / 0x40000)
      ∷ (0x80 + c / 0x1000 % 0x40)
      ∷ (0x80 + c / 0x40 % 0x40)
      ∷ (0x80 + c % 0x40)
      ∷ []

abbrev pub utf8 : Text → Bytes
utf8 [] = []
utf8 (c ∷ cs) = utf8_char c ++ utf8 cs

-- The outer loop of `strip_ansi`, or, where the flag is set, its inner loop, which skips up to and
-- with the final letter of a sequence.
unfoldable pub strip_loop : Bool → Bytes → Text
strip_loop skipping [] = []
strip_loop true (b ∷ bs) =
    let again = strip_loop true bs in
    let after = strip_loop false bs in if is_ascii_alphabetic b then after else again
strip_loop false (b ∷ []) = b ∷ []
strip_loop false (b ∷ (c ∷ bs)) =
    let inside = strip_loop true bs in
    let after = strip_loop false (c ∷ bs) in
    if (b == 0x1b) && (c == b'[') then inside else b ∷ after

-- The loop reads the bytes of the text; a byte that is kept is pushed as the character with its code.
unfoldable pub strip_ansi : Bytes → Text
unfolding strip_loop
strip_ansi s = strip_loop false s

abbrev pub all : (ℕ → Bool) → Text → Bool
all p [] = true
all p (c ∷ cs) = p c && all p cs

abbrev pub map_text : (ℕ → ℕ) → Text → Text
map_text f [] = []
map_text f (c ∷ cs) = f c ∷ map_text f cs

-- `to_lowercase` of an ASCII text.
abbrev pub to_lowercase : Text → Text
to_lowercase = map_text to_ascii_lowercase

-- `split` at every character that the test accepts: `c` joins the piece that the rest starts with.
abbrev pub join_first : ℕ → List Text → List Text
join_first c [] = (c ∷ []) ∷ []
join_first c (piece ∷ pieces) = (c ∷ piece) ∷ pieces

unfoldable pub split : (ℕ → Bool) → Text → List Text
split p [] = [] ∷ []
split p (c ∷ cs) = let pieces = split p cs in if p c then [] ∷ pieces else join_first c pieces

abbrev pub is_delimiter : ℕ → Bool
is_delimiter c = is_whitespace c || (c == b',') || (c == b';') || (c == b'`')

-- `strip_prefix("0x").or_else(|| strip_prefix("0X"))`
abbrev pub strip_0x : Text → Option Text
strip_0x (a ∷ (b ∷ rest)) = if (a == b'0') && ((b == b'x') || (b == b'X')) then some rest else none
strip_0x _ = none

-- One token: an address if it is `0x` and 40 hexadecimal digits.
unfoldable pub address_of_token : Text → Option Text
address_of_token tok = elim (strip_0x tok) [
  | none ↦ none
  | some hex_part ↦
      if (length hex_part == 40) && all is_ascii_hexdigit hex_part
      then some (b'0' ∷ (b'x' ∷ to_lowercase hex_part))
      else none
]

abbrev pub or_else : Option Text → Option Text → Option Text
or_else (some a) o = some a
or_else none o = o

abbrev pub first_token : List Text → Option Text
first_token [] = none
first_token (tok ∷ toks) = or_else (address_of_token tok) (first_token toks)

unfoldable pub first_address_token : Text → Option Text
unfolding split address_of_token
first_address_token s = first_token (split is_delimiter s)

-- `contains` of a text.
unfoldable pub starts_with : Text → Text → Bool
starts_with cs [] = true
starts_with [] (p ∷ ps) = false
starts_with (c ∷ cs) (p ∷ ps) = (c == p) && starts_with cs ps

unfoldable pub contains : Text → Text → Bool
unfolding starts_with
contains [] p = starts_with [] p
contains (c ∷ cs) p = starts_with (c ∷ cs) p || contains cs p

abbrev pub known_phrases : List Text
known_phrases =
    as_bytes "deployed code at address"
    ∷ as_bytes "contract deployed at"
    ∷ as_bytes "deployed contract at"
    ∷ as_bytes "contract was deployed at"
    ∷ as_bytes "activated and deployed"
    ∷ as_bytes "stylus contract activated and ready at"
    ∷ as_bytes "address:"
    ∷ []

abbrev pub any_contained : List Text → Text → Bool
any_contained [] line = false
any_contained (p ∷ ps) line = contains line p || any_contained ps line

abbrev pub announces : Text → Bool
announces line_lower = any_contained known_phrases line_lower

-- `lines`: the pieces between line feeds, less a carriage return at their end; no last empty line.
abbrev pub drop_cr : Text → Text
drop_cr [] = []
drop_cr (c ∷ []) = if c == 13 then [] else c ∷ []
drop_cr (c ∷ (d ∷ cs)) = c ∷ drop_cr (d ∷ cs)

abbrev pub end_lines : List Text → List Text
end_lines [] = []
end_lines ([] ∷ []) = []
end_lines ((c ∷ cs) ∷ []) = (c ∷ cs) ∷ []
end_lines (l ∷ (k ∷ ls)) = drop_cr l ∷ end_lines (k ∷ ls)

unfoldable pub lines : Text → List Text
unfolding split
lines s = end_lines (split (λ c. c == 10) s)

-- `trim`
abbrev pub trim_start : Text → Text
trim_start [] = []
trim_start (c ∷ cs) = if is_whitespace c then trim_start cs else c ∷ cs

abbrev pub reversed : Text → Text → Text
reversed acc [] = acc
reversed acc (c ∷ cs) = reversed (c ∷ acc) cs

abbrev pub trim : Text → Text
trim s = reversed [] (trim_start (reversed [] (trim_start s)))

-- Pass 1: a line that announces an address.
unfoldable pub announced : List Text → List Text → Option Text
unfolding contains first_address_token
announced (line_lower ∷ lowers) (line ∷ ls) =
    let rest = announced lowers ls in
    if announces line_lower then or_else (first_address_token line) rest else rest
announced _ _ = none

-- Pass 2: any line with an address that is not the deployer's.
unfoldable pub isolated : Text → List Text → Option Text
unfolding first_address_token eq_ignore_ascii_case
isolated dev_addr [] = none
isolated dev_addr (line ∷ ls) =
    let rest = isolated dev_addr ls in
    elim (first_address_token (trim line)) [
      | none ↦ rest
      | some a ↦ if eq_ignore_ascii_case a dev_addr then rest else some a
    ]

unfoldable pub extract_deployed_address : Text → Text → Option Text
unfolding announced isolated lines
extract_deployed_address stdout dev_addr =
    or_else (announced (lines (to_lowercase stdout)) (lines stdout))
      (isolated dev_addr (lines stdout))

-- `hex::decode` is a parameter.
pub data AddressError : Type 0 where
  not_hex not_20_bytes : AddressError

unfoldable pub parse_addr : (Text → Option Bytes) → Text → Result AddressError Bytes
unfolding trim_start_0x
parse_addr hex_decode s = elim (hex_decode (trim_start_0x (trim s))) [
  | none ↦ err not_hex
  | some bytes ↦ if length bytes == 20 then ok bytes else err not_20_bytes
]
