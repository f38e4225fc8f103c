-- ===== src/Examples/Devnode.antt =====
-- A concrete node: it keeps the account's machine and balance, and its receipts hold the last event of
-- the journal.
use stylus_mobile_native_aut.Base.{
  ℕ, ◌+◌, ◌-◌, ◌≡◌, refl, ap, ◌∙◌, lt→ltb, le→ltb, Bool, true, ◌&&◌, List, [], ◌∷◌, ◌++◌, Option,
  none, some, ltb, ◌==◌, if◌then◌else◌, length, arith,
}
use stylus_mobile_native_aut.Bytes.{Bytes, to_be_bytes}
use stylus_mobile_native_aut.Receivers.{bytes_eq}
use stylus_mobile_native_aut.Machine.{Machine, Entry, logged, called, executed, returned, reverted}
use stylus_mobile_native_aut.Chain.{Request, Reply, outcome, Code, finish, call_back, transact}
use stylus_mobile_native_aut.Harness.Node.{Node, IsNode, HoldsExecuted, garbage, is_reverted}
use stylus_mobile_native_aut.Harness.Receipt.{
  Json, is_executed, executed_topic_hex, trim_start_0x, eq_ignore_ascii_case,
}
use stylus_mobile_native_aut.Harness.Receipt.RoundTrip.{abi_executed}
use stylus_mobile_native_aut.Examples.{devnet, contracts}

-- A JSON value: the receipt, its logs, one log, its topics, or a text.
pub data Value : Type 0 where
  whole logs_of log_of topics_of text : Bytes → Value

-- The key's length tells the three keys apart: logs, data, topics.
abbrev at_key : Value → Bytes → Option Value
at_key (whole d) key = some (logs_of d)
at_key (log_of d) key = if length key == 6 then some (topics_of d) else some (text d)
at_key v key = none

abbrev array : Value → Option (List Value)
array (logs_of d) = some (log_of d ∷ [])
array (topics_of d) = some (text executed_topic_hex ∷ [])
array v = none

abbrev string : Value → Option Bytes
string (text d) = some d
string v = none

-- Data is written after one mark.
abbrev unmarked : Bytes → Option Bytes
unmarked [] = none
unmarked (c ∷ d) = some d

abbrev pub json : Json
json = record {
  Value = Value;
  from_str = λ t. some (whole t);
  get = at_key;
  as_array = array;
  as_str = string;
  hex_decode = unmarked;
}

abbrev data_of : Entry → Bytes
data_of (logged (executed to value n success d)) = 1 ∷ abi_executed value n success d []
data_of e = []

abbrev last_event : List Entry → Bytes
last_event [] = []
last_event (e ∷ []) = data_of e
last_event (e ∷ (f ∷ es)) = last_event (f ∷ es)

pub record Account : Type 0 where
  pub machine : Machine
  pub wei : ℕ

abbrev moved : Reply → ℕ → ℕ → ℕ
moved (outcome true d) value wei = wei - value
moved r value wei = wei

abbrev encode_none : Reply → Bytes
encode_none r = []

abbrev callee : ℕ → Code devnet
callee wei to value payload m =
    if ltb wei value
    then finish (reverted [])
    else if (to == 0xacc) && bytes_eq payload garbage
    then call_back (Request.unknown garbage) (λ a v d s. (returned [], s))
        (λ r. finish (if is_reverted r then reverted [] else returned []))
    else contracts to value payload m

abbrev spend : Request → Reply → ℕ → ℕ
spend (Request.execute to value payload n sig) r wei = moved r value wei
spend q r wei = wei

abbrev pub devnode : Node devnet
devnode = record {
  State = Account;
  machine = λ s. s.machine;
  balance = λ s. s.wei;
  code = λ s. callee s.wei;
  deployed = λ m. record { machine = m; wei = 0 };
  send = λ q s.
      let (reply, m) = transact devnet (callee s.wei) q s.machine in
      record { machine = m; wei = spend q reply s.wei };
  fund = λ v s. record {
    machine = (transact devnet (callee s.wei) Request.receive s.machine).1;
    wei = s.wei + v;
  };
  receipt = λ q s. last_event (transact devnet (callee s.wei) q s.machine).1.journal;
  encode = λ r. [];
  inner = λ s a v d m. (returned [], m);
}

last_event-append : (es : List Entry) (c e : Entry) → last_event (es ++ (c ∷ e ∷ [])) ≡ data_of e
last_event-append [] c e = refl
last_event-append (x ∷ []) c e = refl
last_event-append (x ∷ (y ∷ es)) c e = last_event-append (y ∷ es) c e

receipt_holds :
    (d : Bytes) (value n : ℕ) (success : Bool) (return_data : Bytes)
    → d ≡ 1 ∷ abi_executed value n success return_data []
    → HoldsExecuted json d value n success return_data
unfolding is_executed eq_ignore_ascii_case trim_start_0x to_be_bytes
receipt_holds d value n success return_data e = record {
  root = whole d;
  before = [];
  after = [];
  log = log_of d;
  data_value = text d;
  data_hex = d;
  padding = [];
  parsed = refl;
  logs = refl;
  none_before = tt;
  found = refl;
  at_data = refl;
  as_text = refl;
  decoded = rw e refl;
}

pub devnode-IsNode : IsNode devnet json devnode
devnode-IsNode = record {
  deployed_machine = λ m. refl;
  deployed_balance = λ m. refl;
  send_machine = λ q s. refl;
  fund_machine = λ v s. refl;
  fund_balance = λ v s. refl;
  out_of_funds = λ s to value payload m poor. rw (lt→ltb s.wei value poor) refl;
  failed_balance = λ s to value n payload sig d e. rw e refl;
  own_code = λ s m. rw (le→ltb s.wei 0 (omega arith)) refl;
  encode_small = λ r. omega arith;
  receipt_logs = λ s q to value n payload d success e. receipt_holds _ value n success d (
      ap last_event e
      ∙ last_event-append s.machine.journal (called to value payload)
          (logged (executed to value n success d)));
}
