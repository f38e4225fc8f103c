-- ===== src/Chain/Effect.antt =====
-- What one transaction can change, and by whose authority.
use stylus_mobile_native_aut.Base.{
  ℕ, ◌≡◌, refl, ◌∙◌, ◌⊎◌, inl, inr, List, [], ◌∷◌, ◌++◌, append-nil, false,
}
use stylus_mobile_native_aut.Bytes.{Bytes}
use stylus_mobile_native_aut.Host.{Host}
use stylus_mobile_native_aut.Machine.{P256Account, Machine}
use stylus_mobile_native_aut.Account.{next_nonce}
use stylus_mobile_native_aut.Account.Batch.{sent, calls_of}
use stylus_mobile_native_aut.Account.BatchLoop.{sent-append}
use stylus_mobile_native_aut.Account.BatchCases.{digest}
use stylus_mobile_native_aut.Chain.{Request, Reply, Code, transact}
use stylus_mobile_native_aut.Chain.Transition.{
  OwnerSigned, execute_digest, rotate_digest, Transition, call_made, batch_made, rotated,
  batch_undone, call_refused, shape_refused, batch_refused, rotation_refused, answered,
}
use stylus_mobile_native_aut.Chain.Refine.{transact-Transition}

-- The calls that a request asks the account to make.
abbrev pub calls_in : Request → List (ℕ × ℕ × Bytes)
calls_in (Request.execute to value payload n sig) = (to, value, payload) ∷ []
calls_in (Request.execute_batch to value payloads n sig) = calls_of to value payloads
calls_in _ = []

-- The key that the account has after a request that takes effect.
abbrev pub key_after : Request → P256Account → ℕ × ℕ
key_after (Request.rotate_owner new_x new_y n sig) a = (new_x, new_y)
key_after _ a = (a.owner_x, a.owner_y)

module _ (host : Host) where
  -- The stored owner has signed exactly this request, for the stored nonce, chain and account.
  abbrev pub Signed : P256Account → Request → Type 0
  Signed a (Request.execute to value payload n sig) =
      OwnerSigned host a n (execute_digest host to value payload n) sig
  Signed a (Request.execute_batch to value payloads n sig) =
      OwnerSigned host a n (digest host to value payloads n) sig
  Signed a (Request.rotate_owner new_x new_y n sig) =
      OwnerSigned host a n (rotate_digest host new_x new_y n) sig
  Signed a _ = ⊥

  -- A request that takes effect: it is signed, its nonce is consumed, its calls are made in order,
  -- the key changes only as it says, and the guard is released.
  pub record TakesEffect (m : Machine) (q : Request) (m' : Machine) : Type 0 where
    pub signed : Signed m.account q
    pub nonce_consumed : m'.account.nonce ≡ next_nonce m.account.nonce
    pub calls : sent m'.journal ≡ sent m.journal ++ calls_in q
    pub key : (m'.account.owner_x, m'.account.owner_y) ≡ key_after q m.account
    pub released : m'.account.in_call ≡ false

module _ (host : Host) (code : Code host) (m : Machine) (free : m.account.in_call ≡ false) where
  Transition-effect :
      {q : Request} {r : Reply} {m' : Machine}
      → Transition host code m q r m'
      → (m' ≡ m) ⊎ TakesEffect host m q m'
  Transition-effect (call_made signed success return_data e) = inr (record {
    signed = signed;
    nonce_consumed = refl;
    calls = sent-append m.journal _;
    key = refl;
    released = free;
  })
  Transition-effect (batch_made shape signed last all sends) = inr (record {
    signed = signed;
    nonce_consumed = refl;
    calls = sent-append last.journal _ ∙ (append-nil _ ∙ sends);
    key = refl;
    released = free;
  })
  Transition-effect (rotated signed valid) = inr (record {
    signed = signed;
    nonce_consumed = refl;
    calls = sent-append m.journal _;
    key = refl;
    released = refl;
  })
  Transition-effect (batch_undone _ _ _ _ _ _) = inl refl
  Transition-effect (call_refused _) = inl refl
  Transition-effect (shape_refused _) = inl refl
  Transition-effect (batch_refused _ _) = inl refl
  Transition-effect (rotation_refused _) = inl refl
  Transition-effect (answered _ _) = inl refl

  -- A transaction to an account whose guard is released either leaves the machine as it is, or the
  -- stored owner signed this very request for the stored nonce, the nonce is consumed, exactly the
  -- requested calls are made in order, the key changes only by a rotation and to the key it names,
  -- and the guard is released again.
  pub transact_effect :
      (q : Request)
      → ((transact host code q m).1 ≡ m) ⊎ TakesEffect host m q (transact host code q m).1
  transact_effect q = Transition-effect (transact-Transition host code m free q)
