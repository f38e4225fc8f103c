-- ===== src/Machine.antt =====
-- The account's storage, its events, and the execution state that its methods run on.
use stylus_mobile_native_aut.Base.{ℕ, Bool, List, [], ◌∷◌, ◌++◌, Option, none, some, ok, err, panic}
use stylus_mobile_native_aut.Bytes.{Bytes}
use stylus_mobile_native_aut.Errors.{P256AccountError, Checked}

-- `struct P256Account`
pub record P256Account : Type 0 where
  pub owner_x : ℕ
  pub owner_y : ℕ
  pub nonce : ℕ
  pub in_call : Bool

-- The events that the contract declares.
pub data Event : Type 0 where
  owner_initialized : ℕ → ℕ → Event
  -- to, value, nonce, success, return data
  executed : ℕ → ℕ → ℕ → Bool → Bytes → Event
  -- calls, nonce
  batch_executed : ℕ → ℕ → Event
  -- previous key, new key, nonce
  owner_rotated : ℕ → ℕ → ℕ → ℕ → ℕ → Event

-- What the account did that others see, in order: events, and calls (to, value, data) sent out.
pub data Entry : Type 0 where
  logged : Event → Entry
  called : ℕ → ℕ → Bytes → Entry

pub record Machine : Type 0 where
  pub account : P256Account
  pub journal : List Entry

-- `Result<Vec<u8>, call::Error>`
pub data CallResult : Type 0 where
  returned : Bytes → CallResult
  reverted : Bytes → CallResult
  abi_decoding_failed : CallResult

-- All code that the account can call: what a call to an address with a value and data gives, and
-- how it leaves the machine, since the callee may call the account back.
abbrev pub Outbound : Type 0
Outbound = ℕ → ℕ → Bytes → Machine → CallResult × Machine

-- A method: the machine comes back after an error too, with the writes made up to it.
abbrev pub Action : Type 0 → Type 0
Action A = Machine → Checked A × Machine

module _ {A : Type 0} where
  abbrev pub pure : A → Action A
  pure a m = (ok a, m)

  abbrev pub raise : P256AccountError → Action A
  raise e m = (err e, m)

  -- A read of the storage.
  abbrev pub gets : (P256Account → A) → Action A
  gets f m = (ok (f m.account), m)

  -- Indexing out of range.
  abbrev pub or_panic : Option A → Action A
  or_panic none m = (panic, m)
  or_panic (some a) m = (ok a, m)

  -- The `?` operator.
  abbrev pub lift : Checked A → Action A
  lift c m = (c, m)

-- A write of the storage.
abbrev pub modify : (P256Account → P256Account) → Action (Unit {0})
modify f m = (ok tt, record m { account = f m.account })

abbrev pub note : Entry → Action (Unit {0})
note e m = (ok tt, record m { journal = m.journal ++ (e ∷ []) })

-- `log(self.vm(), event)`
abbrev pub log : Event → Action (Unit {0})
log e = note (logged e)

infixl 5 ◌>>=◌ ◌>>◌
abbrev pub ◌>>=◌ : {A B : Type 0} → Action A → (A → Action B) → Action B
◌>>=◌ f g m =
    let (r, m') = f m in elim r [ ok a ↦ g a m' | err e ↦ (err e, m') | panic ↦ (panic, m') ]

abbrev pub ◌>>◌ : {B : Type 0} → Action (Unit {0}) → Action B → Action B
f >> g = f >>= λ _. g

-- `call::call(Call::new_in(self).value(value), to, data)`
abbrev pub call : Outbound → ℕ → ℕ → Bytes → Action CallResult
call outbound to value payload =
    note (called to value payload) >> λ m. let (r, m') = outbound to value payload m in (ok r, m')
