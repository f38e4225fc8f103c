-- ===== src/Harness/Receipt/RoundTrip.antt =====
-- The ABI encoding of the `Executed` event and the parser that reads it.
use stylus_mobile_native_aut.Base.{
  ℕ, ◌+◌, ◌<◌, ◌%◌, ◌==◌, ◌-◌, ◌^◌, ◌≡◌, refl, Bool, true, false, ◌++◌, ok, length, if◌then◌else◌,
  arith, length-append, take_of_length, ap, ◌∙◌, le→ltb, leb, ◌≤◌, take,
}
use stylus_mobile_native_aut.Bytes.{Bytes, to_be_bytes, from_be_bytes, slice}
use stylus_mobile_native_aut.Bytes.RoundTrip.{from_be_bytes-to_be_bytes}
use stylus_mobile_native_aut.Eip712.{word}
use stylus_mobile_native_aut.Harness.Receipt.{decode_executed, slice_return_data, all_zero, byte_is}

-- The ABI encoding of (uint256 value, uint256 nonce, bool success, bytes returnData), with any
-- padding after the data.
abbrev pub abi_executed : ℕ → ℕ → Bool → Bytes → Bytes → Bytes
abi_executed value nonce success return_data padding =
    word value
    ++ (word nonce
        ++ (word (if success then 1 else 0)
            ++ (word 0x80 ++ (word (length return_data) ++ (return_data ++ padding)))))

above : (a b : ℕ) → b < a → leb a b ≡ false
above a b h = ground arith

-- What the parser looks at, for any log data.
decode_read :
    (bytes payload : Bytes) (n : ℕ) (success : Bool)
    → 160 + n ≤ length bytes
    → 160 + n < 2 ^ 64
    → all_zero (slice 96 127 bytes) ≡ true
    → byte_is bytes 127 0x80 ≡ true
    → byte_is bytes 95 1 ≡ success
    → from_be_bytes (slice 152 160 bytes) ≡ n
    → slice 160 (160 + n) bytes ≡ payload
    → decode_executed bytes ≡ ok (success, payload)
unfolding decode_executed slice_return_data
decode_read bytes payload n success long small zero offset flag len rest =
    rw
      (
        le→ltb (length bytes) 160 (omega arith),
        zero,
        offset,
        len,
        above (2 ^ 64) (160 + n) small,
        le→ltb (length bytes) (160 + n) long,
        flag,
        rest,
      )
      refl

cancelled : (n : ℕ) → 160 + n - 160 ≡ n
cancelled n = omega arith

flag-byte : (success : Bool) → ((if success then 1 else 0) % 256 == 1) ≡ success
flag-byte true = refl
flag-byte false = refl

module _ (value nonce : ℕ) (success : Bool) (payload padding : Bytes)
    (small : length payload + 160 < 2 ^ 64) where
  encoded-length :
      length (abi_executed value nonce success payload padding)
      ≡ 160 + (length payload + length padding)
  unfolding to_be_bytes
  encoded-length = omega (arith, length-append {0} payload padding)

  read-length :
      from_be_bytes (slice 152 160 (abi_executed value nonce success payload padding))
      ≡ length payload
  unfolding to_be_bytes
  read-length = from_be_bytes-to_be_bytes 8 (length payload) (omega arith)

  zero-offset : all_zero (slice 96 127 (abi_executed value nonce success payload padding)) ≡ true
  unfolding to_be_bytes all_zero
  zero-offset = refl

  low-offset : byte_is (abi_executed value nonce success payload padding) 127 0x80 ≡ true
  unfolding to_be_bytes
  low-offset = refl

  read-flag : byte_is (abi_executed value nonce success payload padding) 95 1 ≡ success
  unfolding to_be_bytes
  read-flag = flag-byte success

  read-data :
      slice 160 (160 + length payload) (abi_executed value nonce success payload padding) ≡ payload
  unfolding to_be_bytes
  read-data =
      ap (λ k. take k (payload ++ padding)) (cancelled (length payload))
      ∙ take_of_length (length payload) payload padding refl

  -- The data of an `Executed` event, in its ABI encoding with any padding, reads back as the success
  -- flag and the return data, for any value, nonce, flag and return data below 2^64 − 160 bytes.
  pub decode_executed-abi_executed :
      decode_executed (abi_executed value nonce success payload padding) ≡ ok (success, payload)
  decode_executed-abi_executed =
      decode_read (abi_executed value nonce success payload padding) payload (length payload)
        success (omega (arith, encoded-length)) (omega arith) zero-offset low-offset read-flag
        read-length read-data
