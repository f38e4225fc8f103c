-- ===== src/Harness/Receipt.antt =====
-- `parse_executed_outcome_from_receipt` of contracts/stylus/devnode-tests/src/main.rs: it reads the
-- outcome of a call from the log of the `Executed` event. serde_json and hex are parameters.
pub mod RoundTrip
pub mod Search
pub mod Verdict
use Prim.Native.String.{String}
use stylus_mobile_native_aut.Base.{
  ℕ, ◌+◌, ◌-◌, ◌^◌, Bool, true, false, ◌&&◌, ◌||◌, not, List, [], ◌∷◌, Option, none, some, Result,
  ok, err, panic, leb, ltb, ◌==◌, if◌then◌else◌, length, get_elem?,
}
use stylus_mobile_native_aut.Bytes.{Bytes, from_be_bytes, slice, u64_mod}
use stylus_mobile_native_aut.Harness.{as_bytes}

-- What the parser uses of serde_json and of hex.
pub record Json : Type 1 where
  pub Value : Type 0
  pub from_str : Bytes → Option Value
  pub get : Value → Bytes → Option Value
  pub as_array : Value → Option (List Value)
  pub as_str : Value → Option Bytes
  pub hex_decode : Bytes → Option Bytes

pub data ReceiptError : Type 0 where
  not_json no_logs no_data not_hex not_found : ReceiptError
  too_short : ℕ → ReceiptError
  bad_offset : Bytes → ReceiptError
  too_long : ℕ → ℕ → ReceiptError

-- `Result<(bool, Vec<u8>)>`
abbrev pub Outcome : Type 0
Outcome = Result ReceiptError (Bool × Bytes)

abbrev pub executed_topic_hex : Bytes
executed_topic_hex = as_bytes "0xec126b3c24acfdb528f781ef219cb885a0dbf6110e42b118c3fae06edfe20480"

-- `u8::to_ascii_lowercase`
abbrev pub to_ascii_lowercase : ℕ → ℕ
to_ascii_lowercase c = if leb b'A' c && leb c b'Z' then c + 32 else c

unfoldable pub eq_ignore_ascii_case : Bytes → Bytes → Bool
eq_ignore_ascii_case [] [] = true
eq_ignore_ascii_case [] (d ∷ ds) = false
eq_ignore_ascii_case (c ∷ cs) [] = false
eq_ignore_ascii_case (c ∷ cs) (d ∷ ds) =
    (to_ascii_lowercase c == to_ascii_lowercase d) && eq_ignore_ascii_case cs ds

-- `trim_start_matches("0x")`
unfoldable pub trim_start_0x : Bytes → Bytes
trim_start_0x [] = []
trim_start_0x (c ∷ []) = c ∷ []
trim_start_0x (c ∷ (d ∷ cs)) =
    let rest = trim_start_0x cs in if (c == b'0') && (d == b'x') then rest else c ∷ (d ∷ cs)

-- `bytes[i] == b`, where the length covers `i`.
abbrev pub byte_is : Bytes → ℕ → ℕ → Bool
byte_is xs i b = elim (get_elem? xs i) [ none ↦ false | some c ↦ c == b ]

unfoldable pub all_zero : Bytes → Bool
all_zero [] = true
all_zero (b ∷ bs) = (b == 0) && all_zero bs

-- The length word is read as a `usize` of 64 bits; the sum `160 + return_len` overflows where it
-- exceeds that, and then the sum (checked) or the slice (unchecked) panics.
unfoldable pub slice_return_data : Bool → Bytes → Outcome
unfolding from_be_bytes
slice_return_data success bytes =
    let return_len = from_be_bytes (slice 152 160 bytes) in
    if leb u64_mod (160 + return_len)
    then panic
    else if ltb (length bytes) (160 + return_len)
    then err (too_long return_len (length bytes - 160))
    else ok (success, slice 160 (160 + return_len) bytes)

-- The ABI data of one `Executed` log.
unfoldable pub decode_executed : Bytes → Outcome
unfolding all_zero slice_return_data
decode_executed bytes =
    if ltb (length bytes) 160
    then err (too_short (length bytes))
    else if not (all_zero (slice 96 127 bytes)) || not (byte_is bytes 127 0x80)
    then err (bad_offset (slice 96 128 bytes))
    else slice_return_data (byte_is bytes 95 1) bytes

module _ (json : Json) where
  -- `log.get("topics").and_then(|t| t.as_array())`
  abbrev pub array_at : json.Value → Bytes → Option (List json.Value)
  array_at v key = elim (json.get v key) [ none ↦ none | some a ↦ json.as_array a ]

  -- `as_str().unwrap_or("")`
  abbrev pub str_or_empty : json.Value → Bytes
  str_or_empty v = elim (json.as_str v) [ none ↦ [] | some s ↦ s ]

  unfoldable pub decode_log : json.Value → Outcome
  unfolding decode_executed trim_start_0x
  decode_log log = elim (json.get log (as_bytes "data")) [
    | none ↦ err no_data
    | some v ↦ elim (json.as_str v) [
      | none ↦ err no_data
      | some data_hex ↦ elim (json.hex_decode (trim_start_0x data_hex)) [
        | none ↦ err not_hex
        | some bytes ↦ decode_executed bytes
      ]
    ]
  ]

  -- `topics[0]` is the topic of `Executed`; a log without topics is skipped.
  unfoldable pub is_executed : json.Value → Bool
  unfolding eq_ignore_ascii_case
  is_executed log = elim (array_at log (as_bytes "topics")) [
    | none ↦ false
    | some [] ↦ false
    | some (topic ∷ topics) ↦ eq_ignore_ascii_case (str_or_empty topic) executed_topic_hex
  ]

  -- The loop over the logs.
  unfoldable pub find_executed : List json.Value → Outcome
  unfolding decode_log is_executed
  find_executed [] = err not_found
  find_executed (log ∷ logs) =
      let rest = find_executed logs in if is_executed log then decode_log log else rest

  unfoldable pub parse_executed_outcome_from_receipt : Bytes → Outcome
  unfolding find_executed
  parse_executed_outcome_from_receipt receipt_json = elim (json.from_str receipt_json) [
    | none ↦ err not_json
    | some v ↦ elim (array_at v (as_bytes "logs")) [
      | none ↦ err no_logs
      | some logs ↦ find_executed logs
    ]
  ]
