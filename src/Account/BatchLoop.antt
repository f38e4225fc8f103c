-- ===== src/Account/BatchLoop.antt =====
-- The loop of `execute_batch`.
use stylus_mobile_native_aut.Base.{
  ℕ, suc, ◌+◌, ◌<◌, ◌≡◌, refl, ◌⊎◌, inl, inr, true, false, List, [], ◌∷◌, ◌++◌, append_assoc,
  append-nil, ok, err, length, arith, ap, sym, ◌∙◌,
}
use stylus_mobile_native_aut.Bytes.{Bytes}
use stylus_mobile_native_aut.Errors.{Checked, batch_call_failed}
use stylus_mobile_native_aut.Machine.{
  Machine, CallResult, returned, reverted, abi_decoding_failed, Outbound, Entry, called, logged,
}
use stylus_mobile_native_aut.Account.{execute_calls, execute_outcome}
use stylus_mobile_native_aut.Account.Reports.{
  Reports, it_reverted, not_decoded, Reports-execute_outcome,
}
use stylus_mobile_native_aut.Account.Batch.{
  sent, calls_of, calling, settled, AllReturn, end, next, FirstFailure, here, later,
}

pub sent-append : (xs ys : List Entry) → sent (xs ++ ys) ≡ sent xs ++ sent ys
sent-append [] ys = refl
sent-append (logged e ∷ xs) ys = sent-append xs ys
sent-append (called t v d ∷ xs) ys = ap (λ l. (t, v, d) ∷ l) (sent-append xs ys)

sent-settled :
    (m : Machine) (to value : ℕ) (payload : Bytes) (n : ℕ) (b : Bytes)
    → sent (settled m to value payload n b).journal ≡ sent m.journal ++ ((to, value, payload) ∷ [])
sent-settled m to value payload n b = simp (sent-append, append-nil)

CallResult-cases :
    (r : CallResult) → ((b : Bytes) × (r ≡ returned b)) ⊎ ((b : Bytes) × Reports r false b)
CallResult-cases (returned b) = inl (b, refl)
CallResult-cases (reverted b) = inr (b, it_reverted)
CallResult-cases abi_decoding_failed = inr ([], not_decoded)

-- A callee leaves the machine alone while the guard is set.
abbrev pub Inert : Outbound → Type 0
Inert outbound =
    (to value : ℕ) (payload : Bytes) (m : Machine)
    → m.account.in_call ≡ true
    → (outbound to value payload m).1 ≡ m

module _ (outbound : Outbound) (inert : Inert outbound) (n : ℕ) where
  module _ (i to value : ℕ) (payload : Bytes) (tos values : List ℕ) (datas : List Bytes)
      (m : Machine) (latched : m.account.in_call ≡ true) where
    step_returns :
        (b : Bytes)
        → (outbound to value payload (calling m to value payload)).0 ≡ returned b
        → execute_calls outbound n i (to ∷ tos) (value ∷ values) (payload ∷ datas) m
          ≡ execute_calls outbound n (i + 1) tos values datas (settled m to value payload n b)
    unfolding execute_calls
    step_returns b r = ground (arith, inert to value payload (calling m to value payload) latched)

    step_fails :
        (b : Bytes)
        → Reports (outbound to value payload (calling m to value payload)).0 false b
        → (execute_calls outbound n i (to ∷ tos) (value ∷ values) (payload ∷ datas) m).0
          ≡ err (batch_call_failed i b)
    unfolding execute_calls
    step_fails b r =
        let failing : execute_outcome (outbound to value payload (calling m to value payload)).0
            ≡ (false, b) =
          Reports-execute_outcome _ false b r in
        ground (arith, failing)

  -- All calls returned: their effect is known.
  pub record Completed (i : ℕ) (to value : List ℕ) (payloads : List Bytes) (m : Machine)
      : Type 0 where
    pub last : Machine
    pub all_return : AllReturn outbound n m to value payloads last
    pub finished : execute_calls outbound n i to value payloads m ≡ (ok tt, last)
    pub account_kept : last.account ≡ m.account
    pub calls_sent : sent last.journal ≡ sent m.journal ++ calls_of to value payloads

  -- Some call did not return: the first such is reported.
  pub record Stopped (i : ℕ) (to value : List ℕ) (payloads : List Bytes) (m : Machine)
      : Type 0 where
    pub index : ℕ
    pub return_data : Bytes
    pub in_range : index < length to
    pub first : FirstFailure outbound n m to value payloads index return_data
    pub stopped :
        (execute_calls outbound n i to value payloads m).0
        ≡ err (batch_call_failed (i + index) return_data)

  renumber :
      (j k : ℕ) (b : Bytes)
      → j ≡ k
      → ◌≡◌ {A = Checked (Unit {0})} (err (batch_call_failed j b)) (err (batch_call_failed k b))
  renumber j k b e = cc

  after_return :
      (i to value : ℕ) (payload : Bytes) (tos values : List ℕ) (datas : List Bytes) (m : Machine)
      → m.account.in_call ≡ true
      → (b : Bytes) → (outbound to value payload (calling m to value payload)).0 ≡ returned b
      → Completed (i + 1) tos values datas (settled m to value payload n b)
        ⊎ Stopped (i + 1) tos values datas (settled m to value payload n b)
      → Completed i (to ∷ tos) (value ∷ values) (payload ∷ datas) m
        ⊎ Stopped i (to ∷ tos) (value ∷ values) (payload ∷ datas) m
  after_return i t v d ts vs ds m latched b r (inl c) = inl (record {
    last = c.last;
    all_return = next b r c.all_return;
    finished = step_returns i t v d ts vs ds m latched b r ∙ c.finished;
    account_kept = c.account_kept;
    calls_sent =
        c.calls_sent
        ∙ (ap (λ l. l ++ calls_of ts vs ds) (sent-settled m t v d n b)
            ∙ append_assoc (sent m.journal) ((t, v, d) ∷ []) (calls_of ts vs ds));
  })
  after_return i t v d ts vs ds m latched b r (inr s) = inr (record {
    index = suc s.index;
    return_data = s.return_data;
    in_range = omega (arith, s.in_range);
    first = later b r s.first;
    stopped =
        ap (λ p. p.0) (step_returns i t v d ts vs ds m latched b r)
        ∙ (s.stopped ∙ renumber (i + 1 + s.index) (i + suc s.index) s.return_data (omega arith));
  })

  pub execute_calls_outcome :
      (i : ℕ) (to value : List ℕ) (payloads : List Bytes) (m : Machine)
      → length value ≡ length to
      → length payloads ≡ length to
      → m.account.in_call ≡ true
      → Completed i to value payloads m ⊎ Stopped i to value payloads m
  unfolding execute_calls
  execute_calls_outcome i [] value payloads m e f latched = inl (record {
    last = m;
    all_return = end;
    finished = refl;
    account_kept = refl;
    calls_sent = sym (append-nil _);
  })
  execute_calls_outcome i (t ∷ ts) [] payloads m e f latched = absurd (omega arith)
  execute_calls_outcome i (t ∷ ts) (v ∷ vs) [] m e f latched = absurd (omega arith)
  execute_calls_outcome i (t ∷ ts) (v ∷ vs) (d ∷ ds) m e f latched =
      elim (CallResult-cases (outbound t v d (calling m t v d)).0) [
        | inl (b, r) ↦ after_return i t v d ts vs ds m latched b r (
            execute_calls_outcome (i + 1) ts vs ds (settled m t v d n b) (omega arith) (omega arith)
              latched)
        | inr (b, r) ↦ inr (record {
          index = 0;
          return_data = b;
          in_range = omega arith;
          first = here r;
          stopped = step_fails i t v d ts vs ds m latched b r ∙ renumber i (i + 0) b (omega arith);
        })
      ]
