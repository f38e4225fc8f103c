-- ===== src/Examples/Cast/Laws.antt =====
-- The laws of the witnesses' tools, over the concrete node.
use stylus_mobile_native_aut.Base.{
  ℕ, ◌+◌, ◌<◌, ◌^◌, ◌≡◌, refl, ap, ap₂, ◌∙◌, zero, suc, ◌/◌, ◌%◌, ltb, ltb→lt, Bool-cases, inl, inr,
  Bool, true, false, not, List, [], ◌∷◌, ◌++◌, some, arith,
}
use stylus_mobile_native_aut.Bytes.{Bytes, to_be_bytes, from_be_bytes}
use stylus_mobile_native_aut.Bytes.RoundTrip.{from_be_bytes-to_be_bytes}
use stylus_mobile_native_aut.Bytes.Valid.{AreBytes, to_be_bytes-AreBytes}
use stylus_mobile_native_aut.Eip712.{word}
use stylus_mobile_native_aut.Chain.{Request, Reply}
use stylus_mobile_native_aut.Harness.{as_bytes}
use stylus_mobile_native_aut.Harness.Node.{is_reverted}
use stylus_mobile_native_aut.Harness.Output.{
  Text, parse_addr, trim, extract_deployed_address, strip_ansi, utf8, lines, split,
  address_of_token, first_address_token, announced, contains, starts_with,
}
use stylus_mobile_native_aut.Harness.{hex_nibble}
use stylus_mobile_native_aut.Harness.Receipt.{trim_start_0x}
use stylus_mobile_native_aut.Account.{constructor}
use stylus_mobile_native_aut.Chain.Invariant.{fresh}
use stylus_mobile_native_aut.Harness.Output.Parse.{NoSpace, trim-NoSpace, trim-hex, middle-space}
use stylus_mobile_native_aut.Harness.Scenarios.{reply_to}
use stylus_mobile_native_aut.Harness.Session.World.{
  Ends, Names, Speaks, IsHex, Reads, reads_nonce, reads_owner_x, reads_owner_y, Options, plain,
  with_receipt, Sent, fails,
}
use stylus_mobile_native_aut.Harness.Shell.{decimal, to_string}
use stylus_mobile_native_aut.Harness.Shell.Commands.{
  Ctx, hex_text, execute_command, rotate_command, call_command, deploy_command,
}
use stylus_mobile_native_aut.Harness.Shell.Reads.{byte_pairs, parse_u64-to_string}
use stylus_mobile_native_aut.Examples.{devnet}
use stylus_mobile_native_aut.Examples.Cast.{
  cast, cast_world, digits, wallet_text, read_address, read_bytes, read_execute, read_rotation,
  transacted, transferred, respond, exits, Outcome, created, announcement, word_text,
}
use stylus_mobile_native_aut.Examples.Devnode.{Account, devnode}
use stylus_mobile_native_aut.Examples.Hex.{
  encode, decode, decode-encode, length-encode, encode-lower, decode-AreBytes,
}

pub cast-IsHex : IsHex cast
cast-IsHex = record {
  decodes = decode-encode;
  two_digits = length-encode;
  lower_digits = encode-lower;
  gives_bytes = decode-AreBytes;
}

abbrev pub context : Ctx
context = record { chain_id = 412346; dev_addr = byte_pairs digits; dev_addr_hex = wallet_text }

read_address-Names : (t : Text) (a : ℕ) → Names cast t a → read_address t ≡ some a
unfolding read_address
read_address-Names t a (small, parsed) =
    rw (read_address, parsed) (ap some (from_be_bytes-to_be_bytes 20 a small))

read_bytes-hex_text : (b : Bytes) → AreBytes b → read_bytes (hex_text cast b) ≡ some b
unfolding read_bytes
read_bytes-hex_text b valid = decode-encode b valid

-- A command that comes to the end of a process with this status and output.
exits-Ends :
    (P : Text → Account → Type 0) (stops : Bool) (out : Text) (s : Account) {p : Outcome}
    → p ≡ exits (not stops) out s
    → P out s
    → Ends stops P p
exits-Ends P true out s e h = rw e refl
exits-Ends P false out s e h = rw e (refl, h)

read_execute-read :
    (to_text : Text) (to value n : ℕ) (payload sig : Bytes)
    → Names cast to_text to
    → value < 2 ^ 64
    → n < 2 ^ 64
    → AreBytes payload
    → AreBytes sig
    → read_execute to_text
        (to_string value)
        (hex_text cast payload)
        (to_string n)
        (hex_text cast sig)
      ≡ some (Request.execute to value payload n sig)
read_execute-read to_text to value n payload sig names small_value small_n valid valid_sig =
    rw
      (
        read_address-Names to_text to names,
        parse_u64-to_string value small_value,
        read_bytes-hex_text payload valid,
        parse_u64-to_string n small_n,
        read_bytes-hex_text sig valid_sig,
      )
      refl

word-read : (x : ℕ) → x < 2 ^ 256 → from_be_bytes (word x) ≡ x
word-read x small = from_be_bytes-to_be_bytes 32 x small

read_rotation-read :
    (x y n : ℕ) (sig : Bytes)
    → x < 2 ^ 256
    → y < 2 ^ 256
    → n < 2 ^ 64
    → AreBytes sig
    → read_rotation
        (hex_text cast (word x))
        (hex_text cast (word y))
        (to_string n)
        (hex_text cast sig)
      ≡ some (Request.rotate_owner x y n sig)
read_rotation-read x y n sig small_x small_y small_n valid_sig =
    rw
      (
        read_bytes-hex_text (word x) (to_be_bytes-AreBytes 32 x),
        read_bytes-hex_text (word y) (to_be_bytes-AreBytes 32 y),
        parse_u64-to_string n small_n,
        read_bytes-hex_text sig valid_sig,
        word-read x small_x,
        word-read y small_y,
      )
      refl

executes_law :
    (s : Account) (acct to_text : Text) (to value n : ℕ) (payload sig : Bytes) (options : List Text)
    → Options options
    → Names cast to_text to
    → value < 2 ^ 64
    → n < 2 ^ 64
    → AreBytes payload
    → AreBytes sig
    → let q = Request.execute to value payload n sig in
      Ends
        (is_reverted (reply_to devnode q s))
        (Sent cast cast_world 0 q s options)
        (respond (execute_command cast acct to_text value payload n sig options).args s)
executes_law s acct to_text to value n payload sig options plain names sv sn valid valid_sig =
    let q = Request.execute to value payload n sig in
    let read = read_execute-read to_text to value n payload sig names sv sn valid valid_sig in
    exits-Ends (Sent cast cast_world 0 q s []) (is_reverted (reply_to devnode q s)) _ _
      (ap (λ o. transacted o false s) read) refl
executes_law s acct to_text to value n payload sig options with_receipt names sv sn valid
      valid_sig =
    let q = Request.execute to value payload n sig in
    let read = read_execute-read to_text to value n payload sig names sv sn valid valid_sig in
    exits-Ends (Sent cast cast_world 0 q s (as_bytes "--json" ∷ []))
      (is_reverted (reply_to devnode q s)) _ _ (ap (λ o. transacted o true s) read) (refl, refl)

rotates_law :
    (s : Account) (acct : Text) (x y n : ℕ) (sig : Bytes)
    → x < 2 ^ 256
    → y < 2 ^ 256
    → n < 2 ^ 64
    → AreBytes sig
    → let q = Request.rotate_owner x y n sig in
      Ends
        (is_reverted (reply_to devnode q s))
        (Sent cast cast_world 0 q s [])
        (respond (rotate_command cast acct (word x) (word y) n sig).args s)
rotates_law s acct x y n sig small_x small_y small_n valid_sig =
    let q = Request.rotate_owner x y n sig in
    let read = read_rotation-read x y n sig small_x small_y small_n valid_sig in
    exits-Ends (Sent cast cast_world 0 q s []) (is_reverted (reply_to devnode q s)) _ _
      (ap (λ o. transacted o false s) read) refl

word_printed :
    (s : Account) (acct signature : Text) (q : Request) (v : ℕ)
    → Reads signature q
    → reply_to devnode q s ≡ Reply.word v
    → Ends false
        (λ out s'. (trim out ≡ hex_text cast (word v)) × (s' ≡ s))
        (respond (call_command acct signature).args s)
word_printed s acct signature q v reads_nonce e = (
  refl,
  (
    ap (λ r. trim (word_text r)) e
        ∙ trim-hex (encode (word v)) (encode-lower (word v) (to_be_bytes-AreBytes 32 v)),
    refl,
  ),
)
word_printed s acct signature q v reads_owner_x e = (
  refl,
  (
    ap (λ r. trim (word_text r)) e
        ∙ trim-hex (encode (word v)) (encode-lower (word v) (to_be_bytes-AreBytes 32 v)),
    refl,
  ),
)
word_printed s acct signature q v reads_owner_y e = (
  refl,
  (
    ap (λ r. trim (word_text r)) e
        ∙ trim-hex (encode (word v)) (encode-lower (word v) (to_be_bytes-AreBytes 32 v)),
    refl,
  ),
)

append-NoSpace : (xs ys : Text) → NoSpace xs → NoSpace ys → NoSpace (xs ++ ys)
append-NoSpace [] ys h k = k
append-NoSpace (x ∷ xs) ys (h, hs) k = (h, append-NoSpace xs ys hs k)

decimal-NoSpace : (k n : ℕ) → NoSpace (decimal k n)
unfolding decimal
decimal-NoSpace zero n = tt
decimal-NoSpace (suc k) n = elim (Bool-cases (ltb n 10)) [
  | inl one ↦
      let small = ltb→lt n 10 one in
      rw one (middle-space (b'0' + n) (omega arith) (omega (arith, small)), tt)
  | inr more ↦ rw more (
      append-NoSpace (decimal k (n / 10)) ((b'0' + n % 10) ∷ []) (decimal-NoSpace k (n / 10))
        (middle-space (b'0' + n % 10) (omega arith) (omega arith), tt))
]

-- The address that a deployment prints.
abbrev printed_address : Text
printed_address = as_bytes "0x0000000000000000000000000000000000000acc"

announced_address :
    (dev : Text)
    → extract_deployed_address (strip_ansi (utf8 announcement)) dev ≡ some printed_address
unfolding extract_deployed_address strip_ansi lines split address_of_token first_address_token
    announced contains starts_with
announced_address dev = refl

printed_address-Names : Names cast printed_address 0xacc
unfolding parse_addr decode to_be_bytes hex_nibble trim_start_0x
printed_address-Names = (omega arith, refl)

deploys_law :
    (x y : ℕ) (s : Account)
    → x < 2 ^ 256
    → y < 2 ^ 256
    → let (r, m) = constructor x y fresh in
      Ends
        (fails r)
        (λ out s'.
          (t : Text) × (extract_deployed_address (strip_ansi (utf8 out)) wallet_text ≡ some t)
          × Names cast t 0xacc
          × (s' ≡ devnode.deployed m))
        (respond (deploy_command cast (word x) (word y)).args s)
deploys_law x y s small_x small_y =
    let (r, m) = constructor x y fresh in
    let deployed =
      ap₂ (λ a b. created a b s) (read_bytes-hex_text (word x) (to_be_bytes-AreBytes 32 x))
        (read_bytes-hex_text (word y) (to_be_bytes-AreBytes 32 y)) in
    let kept =
      ap₂
        (λ a b.
          let (r, m) = constructor a b fresh in
          exits (not (fails r)) announcement (devnode.deployed m))
        (word-read x small_x) (word-read y small_y) in
    exits-Ends _ (fails r) announcement (devnode.deployed m) (deployed ∙ kept)
      (printed_address, announced_address wallet_text, printed_address-Names, refl)

pub cast-Speaks : Speaks cast cast_world context devnet.keccak
cast-Speaks = record {
  same_keccak = λ i. refl;
  same_chain = λ i. refl;
  deploys = λ x y s small_x small_y. deploys_law x y s small_x small_y;
  funds = λ i s acct amount wei named e.
      exits-Ends (λ out s'. s' ≡ devnode.fund wei s)
        (is_reverted (reply_to devnode Request.receive s)) _ _ (ap (λ o. transferred o s) e) refl;
  executes = λ i s acct to_text to value n payload sig options o named.
      executes_law s acct to_text to value n payload sig options o;
  rotates = λ i s acct x y n sig named. rotates_law s acct x y n sig;
  reads = λ i s acct signature q v named. word_printed s acct signature q v;
  shows =
      λ i s acct named. (refl, (trim-NoSpace (decimal 78 s.wei) (decimal-NoSpace 78 s.wei), refl));
}
