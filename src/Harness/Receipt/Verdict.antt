-- ===== src/Harness/Receipt/Verdict.antt =====
-- What the parser answers for every log data.
use stylus_mobile_native_aut.Base.{
  ℕ, zero, suc, ◌+◌, ◌-◌, ◌<◌, ◌≤◌, ◌^◌, ◌≡◌, ◌≢◌, refl, sym, ap, ap₂, ◌∙◌, ◌↔◌, Bool, true, false,
  ◌&&◌, ◌||◌, not, [], ◌∷◌, ◌++◌, some, ok, err, panic, length, take, drop, get_elem?, ◌==◌, leb,
  ltb, append-cancel, length-take, length-drop, take-drop, Bool-cases, leb→le, ltb→lt, inl, inr,
  arith,
}
use stylus_mobile_native_aut.Bytes.{Bytes, zeros, slice, to_be_bytes, from_be_bytes, u64_mod}
use stylus_mobile_native_aut.Eip712.{word}
use stylus_mobile_native_aut.Harness.Receipt.{
  Outcome, too_short, bad_offset, too_long, decode_executed, slice_return_data, all_zero, byte_is,
}

-- The words of the data that the parser reads: the offset of the return data and the last eight bytes
-- of its length.
abbrev pub offset_word : Bytes → Bytes
offset_word bytes = slice 96 128 bytes

abbrev pub length_word : Bytes → ℕ
length_word bytes = from_be_bytes (slice 152 160 bytes)

-- The outcome of the parser: the first requirement that fails names the error.
pub data Verdict (bytes : Bytes) : Outcome → Type 0 where
  short : length bytes < 160 → Verdict bytes (err (too_short (length bytes)))
  moved :
      160 ≤ length bytes
      → offset_word bytes ≢ word 0x80
      → Verdict bytes (err (bad_offset (offset_word bytes)))
  overflow :
      160 ≤ length bytes
      → offset_word bytes ≡ word 0x80
      → 2 ^ 64 ≤ 160 + length_word bytes
      → Verdict bytes panic
  truncated :
      offset_word bytes ≡ word 0x80
      → 160 + length_word bytes < 2 ^ 64
      → 160 ≤ length bytes
      → length bytes < 160 + length_word bytes
      → Verdict bytes (err (too_long (length_word bytes) (length bytes - 160)))
  read :
      (head return_data padding : Bytes)
      → offset_word bytes ≡ word 0x80
      → bytes ≡ head ++ (return_data ++ padding)
      → length head ≡ 160
      → length return_data ≡ length_word bytes
      → Verdict bytes (ok (byte_is bytes 95 1, return_data))

all_zero-zeros : (xs : Bytes) → (all_zero xs ≡ true) ↔ (xs ≡ zeros (length xs))
unfolding all_zero
all_zero-zeros [] = ground arith
all_zero-zeros (x ∷ xs) = ground (arith, all_zero-zeros xs)

-- A longer prefix has one byte more.
take_next :
    (n : ℕ) (xs : Bytes)
    → n < length xs
    → (b : ℕ) × (take (suc n) xs ≡ take n xs ++ (b ∷ [])) × (get_elem? xs n ≡ some b)
take_next n [] h = absurd (omega arith)
take_next zero (x ∷ xs) h = (x, refl, refl)
take_next (suc n) (x ∷ xs) h =
    let (b, longer, at) = take_next n xs (omega arith) in (b, ap (λ l. x ∷ l) longer, at)

get_elem?-drop : (k n : ℕ) (xs : Bytes) → get_elem? (drop k xs) n ≡ get_elem? xs (k + n)
get_elem?-drop zero n xs = ground arith
get_elem?-drop (suc k) n [] = refl
get_elem?-drop (suc k) n (x ∷ xs) = ground (arith, get_elem?-drop k n xs)

ends_in :
    (zs : Bytes) (b : ℕ)
    → length zs ≡ 31
    → ((all_zero zs && (b == 0x80)) ≡ true) ↔ (zs ++ (b ∷ []) ≡ word 0x80)
unfolding to_be_bytes
ends_in zs b h = (
  (λ e.
      let zero_bytes : zs ≡ zeros (length zs) = (all_zero-zeros zs).0 (ground (arith, e)) in
      let last : b ≡ 0x80 = ground (arith, e) in
      let short : zs ≡ zeros 31 = zero_bytes ∙ ap zeros h in
      ap₂ (λ front c. front ++ (c ∷ [])) short last),
  (λ e.
      let (front, back) = append-cancel zs (zeros 31) {zs = b ∷ []} {ws = 0x80 ∷ []} h e in
      let last : b ≡ 0x80 = cc in
      let zero_bytes : all_zero zs ≡ true = (all_zero-zeros zs).1 (front ∙ ap zeros (sym h)) in
      rw (zero_bytes, last) refl),
)

byte_is_at : (xs : Bytes) (i b c : ℕ) → get_elem? xs i ≡ some b → byte_is xs i c ≡ (b == c)
byte_is_at xs i b c e = rw (e, byte_is) refl

-- The parser's test of the offset.
offset_iff :
    (bytes : Bytes)
    → 160 ≤ length bytes
    → ((all_zero (slice 96 127 bytes) && byte_is bytes 127 0x80) ≡ true)
      ↔ (offset_word bytes ≡ word 0x80)
offset_iff bytes long =
    let ys = drop 96 bytes in
    let wide : 31 < length ys = omega (arith, length-drop 96 bytes) in
    let (b, longer, at) = take_next 31 ys wide in
    let here : get_elem? bytes 127 ≡ some b = sym (get_elem?-drop 96 31 bytes) ∙ at in
    rw (byte_is_at bytes 127 b 0x80 here, longer)
      (ends_in (take 31 ys) b (length-take 31 ys (omega (arith, wide))))

leb-false : (a b : ℕ) → leb a b ≡ false → b < a
leb-false a b e = ground arith

all_hold : (a b : Bool) → (a && b) ≡ true → (not a || not b) ≡ false
all_hold a b e = ground arith

one_fails : (a b : Bool) → (a && b) ≡ false → (not a || not b) ≡ true
one_fails a b e = ground arith

ltb-false : (a b : ℕ) → ltb a b ≡ false → b ≤ a
ltb-false a b e = ground arith

module _ (bytes : Bytes) (long : 160 ≤ length bytes) where
  -- The data after the header, where its length fits.
  read_payload :
      offset_word bytes ≡ word 0x80
      → 160 + length_word bytes ≤ length bytes
      → Verdict bytes (ok (byte_is bytes 95 1, slice 160 (160 + length_word bytes) bytes))
  read_payload offset fits =
      let n = length_word bytes in
      let rest = drop 160 bytes in
      let size : 160 + n - 160 ≡ n = omega arith in
      rw size (
        Verdict.read (take 160 bytes) (take n rest) (drop n rest) offset
          (sym (take-drop 160 bytes) ∙ ap (λ l. take 160 bytes ++ l) (sym (take-drop n rest)))
          (length-take 160 bytes long)
          (length-take n rest (omega (arith, length-drop 160 bytes, fits))))

  slice-Verdict :
      offset_word bytes ≡ word 0x80 → Verdict bytes (slice_return_data (byte_is bytes 95 1) bytes)
  unfolding slice_return_data
  slice-Verdict offset = elim (Bool-cases (leb u64_mod (160 + length_word bytes))) [
    | inl over ↦ rw over (Verdict.overflow long offset (leb→le u64_mod _ over))
    | inr within ↦ elim (Bool-cases (ltb (length bytes) (160 + length_word bytes))) [
      | inl cut ↦
          rw (within, cut)
            (Verdict.truncated offset (leb-false u64_mod _ within) long
              (ltb→lt (length bytes) _ cut))
      | inr fits ↦ rw (within, fits) (read_payload offset (ltb-false (length bytes) _ fits))
    ]
  ]

-- For every log data `decode_executed` gives the outcome that its first failing requirement names:
-- fewer than 160 bytes; an offset word other than 0x80; a length, read from the last eight bytes of
-- its word, of at least 2^64 − 160, where the parser panics; a length that exceeds the bytes after the
-- header. If none fails it returns the flag and exactly that many bytes after the 160 of the header.
pub decode_executed-Verdict : (bytes : Bytes) → Verdict bytes (decode_executed bytes)
unfolding decode_executed
decode_executed-Verdict bytes = elim (Bool-cases (ltb (length bytes) 160)) [
  | inl cut ↦ rw cut (Verdict.short (ltb→lt (length bytes) 160 cut))
  | inr over ↦
      let zero = all_zero (slice 96 127 bytes) in
      let low = byte_is bytes 127 0x80 in
      let long : 160 ≤ length bytes = ltb-false (length bytes) 160 over in
      elim (Bool-cases (zero && low)) [
        | inl fixed ↦
            rw (over, all_hold zero low fixed)
              (slice-Verdict bytes long ((offset_iff bytes long).0 fixed))
        | inr other ↦
            rw (over, one_fails zero low other)
              (Verdict.moved long (λ same. cc ((offset_iff bytes long).1 same, other)))
      ]
]
