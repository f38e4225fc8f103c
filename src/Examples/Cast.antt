-- ===== src/Examples/Cast.antt =====
-- Tools for the witnesses: a cast and a cargo that read their arguments and act on the concrete node. The
-- chain keeps the account that was deployed last.
pub mod Laws
use stylus_mobile_native_aut.Base.{
  ℕ, ◌+◌, ◌<◌, ◌^◌, ◌≡◌, refl, Bool, true, false, not, List, [], ◌∷◌, ◌++◌, Option, none, some, ok,
  err, panic, ◌==◌, if◌then◌else◌, length, drop, arith,
}
use stylus_mobile_native_aut.Bytes.{Bytes, from_be_bytes}
use stylus_mobile_native_aut.Eip712.{word}
use stylus_mobile_native_aut.Receivers.{bytes_eq}
use stylus_mobile_native_aut.Account.{constructor}
use stylus_mobile_native_aut.Chain.{Request, Reply}
use stylus_mobile_native_aut.Chain.Invariant.{fresh}
use stylus_mobile_native_aut.Harness.{as_bytes}
use stylus_mobile_native_aut.Harness.Node.{is_reverted}
use stylus_mobile_native_aut.Harness.Output.{Text, parse_addr}
use stylus_mobile_native_aut.Harness.Scenarios.{reply_to}
use stylus_mobile_native_aut.Harness.Session.World.{World, fails}
use stylus_mobile_native_aut.Harness.Shell.{
  Command, Output, Tools, parse_u64, parse_digits, without_0x, decimal,
}
use stylus_mobile_native_aut.Examples.{devnet}
use stylus_mobile_native_aut.Examples.Devnode.{Account, devnode}
use stylus_mobile_native_aut.Examples.Hex.{encode, decode}

abbrev pub digits : Text
digits = as_bytes "3f1eae7d46d88f08fc2f8ed27fcb2ab183eb2d0e"

abbrev pub wallet_text : Text
wallet_text = as_bytes "0x" ++ digits

-- The arguments, read.
unfoldable pub read_address : Text → Option ℕ
read_address t = elim (parse_addr decode t) [
  | ok b ↦ some (from_be_bytes b)
  | err e ↦ none
  | panic ↦ none
]

unfoldable pub read_bytes : Text → Option Bytes
read_bytes t = decode (without_0x t)

infixl 5 ◌>>=◌
abbrev ◌>>=◌ : {A B : Type 0} → Option A → (A → Option B) → Option B
◌>>=◌ none f = none
◌>>=◌ (some a) f = f a

abbrev pub read_execute : Text → Text → Text → Text → Text → Option Request
read_execute to value payload nonce sig = do
  a ← read_address to
  v ← parse_u64 value
  p ← read_bytes payload
  n ← parse_u64 nonce
  s ← read_bytes sig
  some (Request.execute a v p n s)

abbrev pub read_rotation : Text → Text → Text → Text → Option Request
read_rotation x y nonce sig = do
  bx ← read_bytes x
  by ← read_bytes y
  n ← parse_u64 nonce
  s ← read_bytes sig
  some (Request.rotate_owner (from_be_bytes bx) (from_be_bytes by) n s)

abbrev pub Outcome : Type 0
Outcome = Option Output × Account

-- A process that ends with this status and output.
abbrev pub exits : Bool → Text → Account → Outcome
exits success stdout s = (some (record { success = success; stdout = stdout }), s)

-- A transaction: its receipt is printed where it is asked for.
abbrev pub transacted : Option Request → Bool → Account → Outcome
transacted none json s = exits false [] s
transacted (some q) json s =
    exits (not (is_reverted (reply_to devnode q s))) (if json then devnode.receipt q s else [])
      (devnode.send q s)

abbrev pub transferred : Option ℕ → Account → Outcome
transferred none s = exits false [] s
transferred (some wei) s =
    exits (not (is_reverted (reply_to devnode Request.receive s))) [] (devnode.fund wei s)

abbrev pub send : List Text → Account → Outcome
send (acct ∷ (form ∷ (a ∷ (b ∷ (c ∷ (d ∷ (e ∷ more))))))) s =
    if bytes_eq form (as_bytes "--value")
    then transferred (parse_digits 0 a) s
    else if bytes_eq form (as_bytes "execute(address,uint256,bytes,uint256,bytes)")
    then transacted (read_execute a b c d e) (length more == 5) s
    else transacted (read_rotation a b c d) false s
send args s = (none, s)

abbrev pub view_of : Text → Request
view_of signature =
    if bytes_eq signature (as_bytes "nonce()")
    then Request.nonce
    else if bytes_eq signature (as_bytes "ownerX()")
    then Request.owner_x
    else Request.owner_y

abbrev pub word_text : Reply → Text
word_text (Reply.word v) = as_bytes "0x" ++ encode (word v)
word_text r = []

abbrev pub call : List Text → Account → Outcome
call (acct ∷ (signature ∷ options)) s =
    exits true (word_text (reply_to devnode (view_of signature) s)) s
call args s = (none, s)

abbrev pub announcement : Text
announcement = as_bytes "contract deployed at 0x0000000000000000000000000000000000000acc"

abbrev pub created : Option Bytes → Option Bytes → Account → Outcome
created (some x) (some y) s =
    let (r, m) = constructor (from_be_bytes x) (from_be_bytes y) fresh in
    exits (not (fails r)) announcement (devnode.deployed m)
created ox oy s = exits false [] s

abbrev pub deploy : List Text → Account → Outcome
deploy (x ∷ (y ∷ more)) s = created (read_bytes x) (read_bytes y) s
deploy args s = exits true (as_bytes "stylus 0.6.1") s

abbrev pub respond : List Text → Account → Outcome
respond [] s = (none, s)
respond (verb ∷ args) s =
    if bytes_eq verb (as_bytes "send")
    then send args s
    else if bytes_eq verb (as_bytes "call")
    then call args s
    else if bytes_eq verb (as_bytes "balance")
    then exits true (decimal 78 s.wei) s
    else if bytes_eq verb (as_bytes "stylus")
    then deploy (drop 11 args) s
    else if bytes_eq verb (as_bytes "chain-id")
    then exits true (as_bytes "412346") s
    else exits true wallet_text s

abbrev pub cast : Tools
cast = record {
  Sys = Account;
  output = λ cmd s. respond cmd.args s;
  hex_encode = encode;
  hex_decode = decode;
  exists = λ path s. true;
  wasm_path = as_bytes "p256_account.wasm";
}

abbrev pub cast_world : World cast
cast_world = record {
  host = λ i. devnet;
  node = λ i. devnode;
  view = λ i s. s;
  next_account = λ s. 0;
}
