-- ===== src/Account/Batch.antt =====
-- `execute_batch` on each of its branches, where no callee changes the machine while it is called.
use stylus_mobile_native_aut.Base.{ℕ, suc, ◌≡◌, true, false, List, [], ◌∷◌, ◌++◌}
use stylus_mobile_native_aut.Bytes.{Bytes}
use stylus_mobile_native_aut.Machine.{Machine, returned, Outbound, Entry, called, logged, executed}
use stylus_mobile_native_aut.Account.Reports.{Reports}

-- The calls of a journal, in order.
abbrev pub sent : List Entry → List (ℕ × ℕ × Bytes)
sent [] = []
sent (logged e ∷ es) = sent es
sent (called to value payload ∷ es) = (to, value, payload) ∷ sent es

-- The calls that three parallel arrays describe.
abbrev pub calls_of : List ℕ → List ℕ → List Bytes → List (ℕ × ℕ × Bytes)
calls_of (to ∷ tos) (value ∷ values) (payload ∷ datas) =
    (to, value, payload) ∷ calls_of tos values datas
calls_of _ _ _ = []

-- `m` with a call on record.
abbrev pub calling : Machine → ℕ → ℕ → Bytes → Machine
calling m to value payload = record m { journal = m.journal ++ (called to value payload ∷ []) }

-- `m` with the call and its event on record.
abbrev pub settled : Machine → ℕ → ℕ → Bytes → ℕ → Bytes → Machine
settled m to value payload n b =
    let c = calling m to value payload in
    record c { journal = c.journal ++ (logged (executed to value n true b) ∷ []) }

module _ (outbound : Outbound) (n : ℕ) where
  -- All calls return, one after the other, and take the machine from `m` to the last index.
  pub data AllReturn : Machine → List ℕ → List ℕ → List Bytes → Machine → Type 0 where
    end : {m : Machine} {values : List ℕ} {datas : List Bytes} → AllReturn m [] values datas m
    next :
        {m m' : Machine} {to value : ℕ} {payload : Bytes} {tos values : List ℕ} {datas : List Bytes}
        (b : Bytes)
        → (outbound to value payload (calling m to value payload)).0 ≡ returned b
        → AllReturn (settled m to value payload n b) tos values datas m'
        → AllReturn m (to ∷ tos) (value ∷ values) (payload ∷ datas) m'

  -- The calls before the `k`th return, and the `k`th does not; `b` is what it leaves.
  pub data FirstFailure : Machine → List ℕ → List ℕ → List Bytes → ℕ → Bytes → Type 0 where
    here :
        {m : Machine} {to value : ℕ} {payload : Bytes} {tos values : List ℕ} {datas : List Bytes}
        {b : Bytes}
        → Reports (outbound to value payload (calling m to value payload)).0 false b
        → FirstFailure m (to ∷ tos) (value ∷ values) (payload ∷ datas) 0 b
    later :
        {m : Machine} {to value : ℕ} {payload : Bytes} {tos values : List ℕ} {datas : List Bytes}
        {k : ℕ} {b : Bytes} (c : Bytes)
        → (outbound to value payload (calling m to value payload)).0 ≡ returned c
        → FirstFailure (settled m to value payload n c) tos values datas k b
        → FirstFailure m (to ∷ tos) (value ∷ values) (payload ∷ datas) (suc k) b
