-- ===== src/Harness/Receipt/Search.antt =====
-- Which log the parser reads.
use stylus_mobile_native_aut.Base.{
  ℕ, ◌+◌, ◌<◌, ◌^◌, ◌≡◌, refl, ◌∙◌, Bool, true, false, List, [], ◌∷◌, ◌++◌, some, ok, length,
}
use stylus_mobile_native_aut.Bytes.{Bytes}
use stylus_mobile_native_aut.Harness.{as_bytes}
use stylus_mobile_native_aut.Harness.Receipt.{
  Json, array_at, is_executed, decode_log, find_executed, trim_start_0x,
  parse_executed_outcome_from_receipt,
}
use stylus_mobile_native_aut.Harness.Receipt.RoundTrip.{abi_executed, decode_executed-abi_executed}

module _ (json : Json) where
  -- No log of the list is one of `Executed`.
  abbrev pub NoExecuted : List json.Value → Type 0
  NoExecuted [] = Unit {0}
  NoExecuted (log ∷ logs) = (is_executed json log ≡ false) × NoExecuted logs

  -- `log` is the first of `Executed` in `logs`.
  abbrev pub First : List json.Value → json.Value → Type 0
  First logs log =
      (before : List json.Value) × (after : List json.Value) × (logs ≡ before ++ (log ∷ after))
      × NoExecuted before
      × (is_executed json log ≡ true)

  find_executed-append :
      (before after : List json.Value) (log : json.Value)
      → NoExecuted before
      → is_executed json log ≡ true
      → find_executed json (before ++ (log ∷ after)) ≡ decode_log json log
  unfolding find_executed
  find_executed-append [] after log none_before found = rw found refl
  find_executed-append (first ∷ before) after log (skip, none_before) found =
      rw skip (find_executed-append before after log none_before found)

  -- A receipt whose logs hold an `Executed` log, after any logs that are not, is parsed to that log's
  -- success flag and return data, whatever logs follow.
  pub parse_receipt :
      (receipt_json : Bytes) (receipt : json.Value) (before after : List json.Value)
      (log : json.Value) (text : json.Value) (data_hex : Bytes) (value nonce : ℕ) (success : Bool)
      (payload padding : Bytes)
      → json.from_str receipt_json ≡ some receipt
      → array_at json receipt (as_bytes "logs") ≡ some (before ++ (log ∷ after))
      → NoExecuted before
      → is_executed json log ≡ true
      → json.get log (as_bytes "data") ≡ some text
      → json.as_str text ≡ some data_hex
      → json.hex_decode (trim_start_0x data_hex)
        ≡ some (abi_executed value nonce success payload padding)
      → length payload + 160 < 2 ^ 64
      → parse_executed_outcome_from_receipt json receipt_json ≡ ok (success, payload)
  unfolding parse_executed_outcome_from_receipt decode_log
  parse_receipt receipt_json receipt before after log text data_hex value nonce success payload
        padding parsed logs none_before found at_data string decoded small =
      let search = find_executed-append before after log none_before found in
      let read = decode_executed-abi_executed value nonce success payload padding small in
      let at_log : decode_log json log ≡ ok (success, payload) =
        rw (decode_log, at_data, string, decoded) read in
      rw (parse_executed_outcome_from_receipt, parsed, logs) (search ∙ at_log)
