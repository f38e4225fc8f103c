-- ===== src/Chain/Invariant.antt =====
-- What holds of the account between transactions.
use stylus_mobile_native_aut.Base.{ℕ, ◌≡◌, ◌<◌, ◌^◌, refl, true, false, ok, [], arith}
use stylus_mobile_native_aut.Host.{Host}
use stylus_mobile_native_aut.P256.{is_valid_pubkey}
use stylus_mobile_native_aut.Machine.{P256Account, Machine}
use stylus_mobile_native_aut.Account.{constructor}
use stylus_mobile_native_aut.Validators.{validate_constructor_args}
use stylus_mobile_native_aut.Chain.{Request, Reply, Code, transact}
use stylus_mobile_native_aut.Chain.Transition.{
  Transition, call_made, batch_made, rotated, batch_undone, call_refused, shape_refused,
  batch_refused, rotation_refused, answered,
}
use stylus_mobile_native_aut.Chain.Refine.{transact-Transition}

-- The guard is released, the owner is a usable key, the nonce is a word.
pub record IsSound (a : P256Account) : Type 0 where
  pub guard_free : a.in_call ≡ false
  pub usable_key : is_valid_pubkey a.owner_x a.owner_y ≡ true
  pub nonce_word : a.nonce < 2 ^ 256

-- Fresh storage holds zeros.
abbrev pub fresh : Machine
fresh = record {
  account = record { owner_x = 0; owner_y = 0; nonce = 0; in_call = false };
  journal = [];
}

-- A deployment that the constructor accepts starts sound, with the given key and nonce 0.
pub constructor-IsSound :
    (x y : ℕ) {m : Machine}
    → constructor x y fresh ≡ (ok tt, m)
    → IsSound m.account × (m.account.owner_x ≡ x) × (m.account.owner_y ≡ y) × (m.account.nonce ≡ 0)
unfolding constructor validate_constructor_args
constructor-IsSound x y h = ground arith

module _ (host : Host) (code : Code host) (m : Machine) (sound : IsSound m.account) where
  Transition-IsSound :
      {q : Request} {r : Reply} {m' : Machine} → Transition host code m q r m' → IsSound m'.account
  Transition-IsSound (call_made signed success return_data e) = record {
    guard_free = sound.guard_free;
    usable_key = sound.usable_key;
    nonce_word = omega arith;
  }
  Transition-IsSound (batch_made shape signed last all sends) = record {
    guard_free = sound.guard_free;
    usable_key = sound.usable_key;
    nonce_word = omega arith;
  }
  Transition-IsSound (rotated signed valid) = record {
    guard_free = refl;
    usable_key = valid;
    nonce_word = omega arith;
  }
  Transition-IsSound (batch_undone _ _ _ _ _ _) = sound
  Transition-IsSound (call_refused _) = sound
  Transition-IsSound (shape_refused _) = sound
  Transition-IsSound (batch_refused _ _) = sound
  Transition-IsSound (rotation_refused _) = sound
  Transition-IsSound (answered _ _) = sound

  -- Every transaction, whatever code the account calls, keeps a sound account sound: the guard is
  -- released, the owner is a usable key, the nonce is below 2^256.
  pub transact-IsSound : (q : Request) → IsSound (transact host code q m).1.account
  transact-IsSound q = Transition-IsSound (transact-Transition host code m sound.guard_free q)
