-- ===== src/Chain/Guard.antt =====
-- The re-entrancy guard and the calls that come back while it is set.
use stylus_mobile_native_aut.Base.{ℕ, ◌≡◌, refl, ap, ◌∙◌, true, arith}
use stylus_mobile_native_aut.Bytes.{Bytes}
use stylus_mobile_native_aut.Host.{Host}
use stylus_mobile_native_aut.Errors.{reentrancy}
use stylus_mobile_native_aut.Machine.{
  Machine, CallResult, returned, reverted, abi_decoding_failed, Outbound,
}
use stylus_mobile_native_aut.Account
use stylus_mobile_native_aut.Account.Execute.{execute-latched}
use stylus_mobile_native_aut.Account.Rotate.{rotate_owner-latched}
use stylus_mobile_native_aut.Account.BatchCases.{execute_batch-latched}
use stylus_mobile_native_aut.Account.BatchLoop.{Inert}
use stylus_mobile_native_aut.Receivers
use stylus_mobile_native_aut.Chain.{
  Request, failed, serve, Program, finish, call_back, run_program, Code, settle, world,
}

-- The requests that need the owner's signature to change anything.
abbrev pub IsAuthorising : Request → Type 0
IsAuthorising (Request.execute to value payload n sig) = Unit {0}
IsAuthorising (Request.execute_batch to value payloads n sig) = Unit {0}
IsAuthorising (Request.rotate_owner new_x new_y n sig) = Unit {0}
IsAuthorising _ = ⊥

module _ (host : Host) where
  -- A request that needs no signature leaves the machine as it is, in any frame.
  pub serve_reads :
      (out : Outbound) (q : Request) (m : Machine) → ¬ IsAuthorising q → (serve host out q m).1 ≡ m
  unfolding serve Account.owner_x Account.owner_y Account.nonce Account.verify
      Account.is_valid_signature Receivers.on_erc721_received Receivers.on_erc1155_received
      Receivers.on_erc1155_batch_received Receivers.fallback Receivers.receive
  serve_reads out (Request.execute to value payload n sig) m a = absurd (a tt)
  serve_reads out (Request.execute_batch to value payloads n sig) m a = absurd (a tt)
  serve_reads out (Request.rotate_owner new_x new_y n sig) m a = absurd (a tt)
  serve_reads out _ m a = refl

  serve_latched :
      (out : Outbound) (q : Request) (m : Machine)
      → m.account.in_call ≡ true
      → (serve host out q m).1 ≡ m
  unfolding serve
  serve_latched out (Request.execute to value payload n sig) m h =
      ground (arith, execute-latched host out to value payload n sig m h)
  serve_latched out (Request.execute_batch to value payloads n sig) m h =
      ground (arith, execute_batch-latched host out to value payloads n sig m h)
  serve_latched out (Request.rotate_owner new_x new_y n sig) m h =
      ground (arith, rotate_owner-latched host new_x new_y n sig m h)
  serve_latched out q m h = serve_reads out q m (λ a. a)

  run_program_latched :
      (p : Program host) (m : Machine) → m.account.in_call ≡ true → (run_program host p m).1 ≡ m
  unfolding run_program
  run_program_latched (finish r) m h = refl
  run_program_latched (call_back q out next) m h =
      let same = serve_latched out q m h in
      run_program_latched (next (serve host out q m).0) (serve host out q m).1
        (ap (λ k. k.account.in_call) same ∙ h)
      ∙ same

  settle_same : (r : CallResult × Machine) (m : Machine) → r.1 ≡ m → (settle host r m).1 ≡ m
  settle_same (returned b, m') m e = e
  settle_same (reverted b, m') m e = refl
  settle_same (abi_decoding_failed, m') m e = refl

  -- Whatever code runs on the chain, and however often and with whatever requests it calls the
  -- account back, a call made with the guard set leaves the machine as it was: storage, events and
  -- recorded calls.
  pub world_latched :
      (code : Code host) (to value : ℕ) (payload : Bytes) (m : Machine)
      → m.account.in_call ≡ true
      → (world host code to value payload m).1 ≡ m
  unfolding world
  world_latched code to value payload m h =
      settle_same (run_program host (code to value payload m) m) m
        (run_program_latched (code to value payload m) m h)

  pub world-Inert : (code : Code host) → Inert (world host code)
  world-Inert code to value payload m h = world_latched code to value payload m h

  -- While the guard is set, every `execute`, `execute_batch` and `rotate_owner` is refused with
  -- `Reentrancy`, whatever its arguments, and the machine stays as it is.
  pub serve-reentrancy :
      (out : Outbound) (q : Request) (m : Machine)
      → IsAuthorising q
      → m.account.in_call ≡ true
      → serve host out q m ≡ (failed reentrancy, m)
  unfolding serve
  serve-reentrancy out (Request.execute to value payload n sig) m a h =
      ground (arith, execute-latched host out to value payload n sig m h)
  serve-reentrancy out (Request.execute_batch to value payloads n sig) m a h =
      ground (arith, execute_batch-latched host out to value payloads n sig m h)
  serve-reentrancy out (Request.rotate_owner new_x new_y n sig) m a h =
      ground (arith, rotate_owner-latched host new_x new_y n sig m h)
  serve-reentrancy out _ m a h = absurd a
