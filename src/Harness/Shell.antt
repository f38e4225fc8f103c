-- ===== src/Harness/Shell.antt =====
-- The commands of contracts/stylus/devnode-tests/src/main.rs that run cast and cargo: their arguments,
-- and what is read from their output. The processes, the file system and hex are parameters; what
-- stderr and the progress messages say is left out.
pub mod Commands
pub mod Reads
pub mod Setup
use stylus_mobile_native_aut.Base.{
  ℕ, zero, suc, ◌+◌, ◌-◌, ◌*◌, ◌/◌, ◌%◌, ◌^◌, Bool, true, false, ◌&&◌, ◌||◌, not, List, [], ◌∷◌,
  ◌++◌, Option, none, some, Result, ok, err, panic, leb, ltb, ◌==◌, if◌then◌else◌, length,
  replicate,
}
use stylus_mobile_native_aut.Bytes.{Bytes}
use stylus_mobile_native_aut.Harness.{as_bytes}
use stylus_mobile_native_aut.Harness.Output.{
  Text, AddressError, parse_addr, strip_ansi, extract_deployed_address, trim, contains,
}

-- `Command::new(program).args(args)`
pub record Command : Type 0 where
  pub program : Text
  pub args : List Text

-- The exit status and stdout of a process.
pub record Output : Type 0 where
  pub success : Bool
  pub stdout : Text

-- `Sys` is the state of the world outside. `output` is `none` where the process cannot be started.
pub record Tools : Type 1 where
  pub Sys : Type 0
  pub output : Command → Sys → Option Output × Sys
  pub hex_encode : Bytes → Text
  pub hex_decode : Text → Option Bytes
  pub exists : Text → Sys → Bool
  pub wasm_path : Text

pub data ShellError : Type 0 where
  not_started no_deployed_address wasm_missing bad_chain_id not_hex : ShellError
  command_failed : Text → ShellError
  not_32_bytes : ℕ → ShellError
  bad_address : AddressError → ShellError

-- `to_string` of a u64, whose digits are at most 20.
unfoldable pub decimal : ℕ → ℕ → Text
decimal zero n = []
decimal (suc k) n =
    let rest = decimal k (n / 10) in
    if ltb n 10 then (b'0' + n) ∷ [] else rest ++ ((b'0' + n % 10) ∷ [])

unfoldable pub to_string : ℕ → Text
unfolding decimal
to_string n = decimal 20 n

-- `parse::<u64>()`: digits, after a `+` at most, of a number below 2^64.
unfoldable pub parse_digits : ℕ → Text → Option ℕ
parse_digits acc [] = some acc
parse_digits acc (c ∷ cs) =
    let rest = parse_digits (acc * 10 + (c - b'0')) cs in
    if leb b'0' c && leb c b'9' then rest else none

abbrev pub within_u64 : Option ℕ → Option ℕ
within_u64 o = elim o [ none ↦ none | some n ↦ if ltb n (2 ^ 64) then some n else none ]

unfoldable pub parse_u64 : Text → Option ℕ
unfolding parse_digits
parse_u64 [] = none
parse_u64 (c ∷ []) = within_u64 (parse_digits 0 (c ∷ []))
parse_u64 (c ∷ (d ∷ cs)) =
    within_u64 (if c == b'+' then parse_digits 0 (d ∷ cs) else parse_digits 0 (c ∷ (d ∷ cs)))

-- `strip_prefix("0x").unwrap_or(raw)`
abbrev pub without_0x : Text → Text
without_0x (a ∷ (b ∷ rest)) = if (a == b'0') && (b == b'x') then rest else a ∷ (b ∷ rest)
without_0x raw = raw

-- `format!("{:0>64}", hex)`
abbrev pub padded : Text → Text
padded hex = replicate (64 - length hex) b'0' ++ hex

-- `cast_call_u256` from the output of cast.
unfoldable pub read_u256 : (Text → Option Bytes) → Text → Result ShellError Bytes
read_u256 hex_decode out = elim (hex_decode (padded (without_0x (trim out)))) [
  | none ↦ err not_hex
  | some bytes ↦ if length bytes == 32 then ok bytes else err (not_32_bytes (length bytes))
]

abbrev pub Session : Type 0 → Type 0 → Type 0
Session Sys A = Sys → Result ShellError A × Sys

abbrev pub next :
    {Sys A B : Type 0} → Result ShellError A × Sys → (A → Session Sys B) → Result ShellError B × Sys
next (ok a, sys) g = g a sys
next (err e, sys) g = (err e, sys)
next (panic, sys) g = (panic, sys)

infixl 5 ◌>>=◌
abbrev pub ◌>>=◌ : {Sys A B : Type 0} → Session Sys A → (A → Session Sys B) → Session Sys B
◌>>=◌ f g sys = next (f sys) g

module _ {Sys A : Type 0} where
  abbrev pub pure : A → Session Sys A
  pure a sys = (ok a, sys)

  -- The `?` operator.
  abbrev pub lift : Result ShellError A → Session Sys A
  lift r sys = (r, sys)

module _ (tools : Tools) where
  unfoldable pub run : Command → Session tools.Sys Text
  run cmd sys =
      let (o, sys') = tools.output cmd sys in
      elim o [
        | none ↦ (err not_started, sys')
        | some out ↦ (if out.success then ok out.stdout else err (command_failed out.stdout), sys')
      ]
