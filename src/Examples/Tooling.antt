-- ===== src/Examples/Tooling.antt =====
-- The harness's receipt parser, scanners and runner at concrete inputs.
use stylus_mobile_native_aut.Base.{
  ℕ, zero, suc, ◌+◌, ◌*◌, ◌≡◌, refl, ap, true, false, [], ◌∷◌, ◌++◌, Option, none, some, ok, panic,
  length, ◌==◌, if◌then◌else◌, arith,
}
use stylus_mobile_native_aut.Bytes.{Bytes, zeros, to_be_bytes, from_be_bytes}
use stylus_mobile_native_aut.Harness.{as_bytes, hex_nibble}
use stylus_mobile_native_aut.Harness.Receipt.{
  Json, executed_topic_hex, decode_executed, trim_start_0x, is_executed, eq_ignore_ascii_case,
  parse_executed_outcome_from_receipt, slice_return_data, all_zero,
}
use stylus_mobile_native_aut.Harness.Receipt.RoundTrip.{abi_executed}
use stylus_mobile_native_aut.Harness.Receipt.Verdict.{Verdict, decode_executed-Verdict}
use stylus_mobile_native_aut.Harness.Receipt.Search.{parse_receipt}
use stylus_mobile_native_aut.Harness.Output.{
  Text, announced, lines, parse_addr, extract_deployed_address, split, address_of_token, isolated,
  contains, first_address_token, starts_with,
}
use stylus_mobile_native_aut.Harness.Output.Parse.{parse_addr-extract_deployed_address}

-- A receipt with two logs, its nodes numbered: 0 is the receipt, 1 its logs, 2 and 3 the logs; hex
-- texts stand for themselves.
abbrev event_data : Bytes
event_data = abi_executed 7 4 false (8 ∷ 9 ∷ []) (0 ∷ 0 ∷ [])

abbrev node : ℕ → Bytes → Option ℕ
node v key =
    if v == 0 then some 1 else if length key == 4 then some 5 else if v == 3 then some 4 else none

abbrev receipt : Json
receipt = record {
  Value = ℕ;
  from_str = λ _. some 0;
  get = node;
  as_array = λ v. if v == 1 then some (2 ∷ 3 ∷ []) else some (6 ∷ []);
  as_str = λ v. if v == 6 then some executed_topic_hex else some event_data;
  hex_decode = some;
}

first_skipped : is_executed receipt 2 ≡ false
unfolding is_executed
first_skipped = refl

second_found : is_executed receipt 3 ≡ true
unfolding is_executed eq_ignore_ascii_case
second_found = refl

event_data-bare : trim_start_0x event_data ≡ event_data
unfolding trim_start_0x to_be_bytes
event_data-bare = refl

parse_receipt_example :
    parse_executed_outcome_from_receipt receipt (as_bytes "{}") ≡ ok (false, 8 ∷ 9 ∷ [])
parse_receipt_example =
    parse_receipt receipt (as_bytes "{}") 0 (2 ∷ []) [] 3 5 event_data 7 4 false (8 ∷ 9 ∷ [])
      (0 ∷ 0 ∷ []) refl refl (first_skipped, tt) second_found refl refl (ap some event_data-bare)
      (omega arith)

abbrev deployer : Text
deployer = as_bytes "0x3f1eae7d46d88f08fc2f8ed27fcb2ab183eb2d0e"

abbrev account : Text
account = as_bytes "0xa1b2c3d4e5f60718293a4b5c6d7e8f9012345678"

abbrev output : Text
output = as_bytes "from 0x3f1Eae7D46d88F08fc2F8ed27FCb2AB183EB2d0E" ++ (10 ∷ account)

-- The deployer's line is passed over.
account_found : extract_deployed_address output deployer ≡ some account
unfolding extract_deployed_address isolated lines split address_of_token first_address_token
    announced contains starts_with eq_ignore_ascii_case
account_found = refl

-- Two digits to a byte.
abbrev pairs : Text → Bytes
pairs (a ∷ (b ∷ digits)) = (hex_nibble a * 16 + hex_nibble b) ∷ pairs digits
pairs _ = []

length-pairs : (k : ℕ) (digits : Text) → length digits ≡ k + k → length (pairs digits) ≡ k
length-pairs k [] h = omega arith
length-pairs k (a ∷ []) h = absurd (omega arith)
length-pairs zero (a ∷ (b ∷ digits)) h = absurd (omega arith)
length-pairs (suc k) (a ∷ (b ∷ digits)) h = ap suc (length-pairs k digits (omega arith))

parse_addr-extract_deployed_address_example :
    (b : Bytes) × (parse_addr (λ digits. some (pairs digits)) account ≡ ok b) × (length b ≡ 20)
parse_addr-extract_deployed_address_example =
    parse_addr-extract_deployed_address (λ digits. some (pairs digits))
      (λ digits size lower. (pairs digits, refl, length-pairs 20 digits size)) output deployer
      account account_found

-- Log data whose length word is 2^64 − 1: the parser panics.
abbrev overflowing : Bytes
overflowing = zeros 127 ++ (0x80 ∷ (zeros 24 ++ to_be_bytes 8 0xffffffffffffffff))

overflowing_panics : decode_executed overflowing ≡ panic
unfolding decode_executed slice_return_data all_zero to_be_bytes from_be_bytes
overflowing_panics = refl

decode_executed-Verdict_example : Verdict overflowing (decode_executed overflowing)
decode_executed-Verdict_example = decode_executed-Verdict overflowing
