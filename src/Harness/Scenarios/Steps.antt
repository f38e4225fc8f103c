-- ===== src/Harness/Scenarios/Steps.antt =====
-- What each step of a scenario does, for a key that can sign.
use stylus_mobile_native_aut.Base.{
  ℕ, ◌≡◌, refl, ap, ap₂, sym, ◌∙◌, ◌∷◌, ◌++◌, Bool, ◌+◌, ◌^◌, ◌<◌, arith, true, false, [], ok,
}
use stylus_mobile_native_aut.Receivers.Interfaces.{bytes_eq_refl}
use stylus_mobile_native_aut.Bytes.{Bytes, to_be_bytes}
use stylus_mobile_native_aut.Host.{Host}
use stylus_mobile_native_aut.Eip712.{word}
use stylus_mobile_native_aut.P256.{is_valid_pubkey}
use stylus_mobile_native_aut.Signature.Malleable.{Accepted, Accepted-iff}
use stylus_mobile_native_aut.Validators.{validate_constructor_args}
use stylus_mobile_native_aut.Machine.{Machine, logged, called, executed, owner_initialized}
use stylus_mobile_native_aut.Account.{constructor, execute_request, execute_outcome}
use stylus_mobile_native_aut.Account.Execute.{opened}
use stylus_mobile_native_aut.Validators.Decisions.{validate_execute_request_iff}
use stylus_mobile_native_aut.Chain.Settled.{execute-settled}
use stylus_mobile_native_aut.Account
use stylus_mobile_native_aut.Receivers
use stylus_mobile_native_aut.Chain.{Request, Reply, outcome, transact, serve, world}
use stylus_mobile_native_aut.Harness.{u256_be, execute_hash, rotate_hash}
use stylus_mobile_native_aut.Harness.Node.{Node, IsNode, is_reverted}
use stylus_mobile_native_aut.Harness.Receipt.{Json}
use stylus_mobile_native_aut.Chain.Invariant.{fresh}
use stylus_mobile_native_aut.Chain.Progress.{signed_rotation}
use stylus_mobile_native_aut.Chain.Transition.{execute_digest, rotate_digest, consumed}
use stylus_mobile_native_aut.Harness.Digests.{execute_hash-agrees, rotate_hash-agrees}
use stylus_mobile_native_aut.Harness.Scenarios.{
  Keypair, deploy_fresh, cast_send, cast_send_value, cast_call_u256, expect_nonce, call_hash,
  rotation_hash, hashing, account,
}

-- The key is usable, and what it signs is accepted for it.
pub record CanSign (host : Host) (kp : Keypair) : Type 0 where
  pub usable : is_valid_pubkey kp.pub_x kp.pub_y ≡ true
  pub accepts : (hash : ℕ) → Accepted host hash (kp.sign (word hash)) kp.pub_x kp.pub_y

-- The account of `kp`, between transactions, with the nonce `n`.
pub record Owned (m : Machine) (kp : Keypair) (n : ℕ) : Type 0 where
  pub key_x : m.account.owner_x ≡ kp.pub_x
  pub key_y : m.account.owner_y ≡ kp.pub_y
  pub at_nonce : m.account.nonce ≡ n
  pub free : m.account.in_call ≡ false

abbrev created : Keypair → Machine
created kp = record {
  account = record { owner_x = kp.pub_x; owner_y = kp.pub_y; nonce = 0; in_call = false };
  journal = logged (owner_initialized kp.pub_x kp.pub_y) ∷ [];
}

constructor_lem :
    (kp : Keypair)
    → is_valid_pubkey kp.pub_x kp.pub_y ≡ true
    → constructor kp.pub_x kp.pub_y fresh ≡ (ok tt, created kp)
unfolding constructor validate_constructor_args
constructor_lem kp usable = ground (arith, usable)

consumed-Owned :
    (m m' : Machine) (kp : Keypair) (n : ℕ)
    → m'.account ≡ consumed m.account
    → Owned m kp n
    → n + 1 < 2 ^ 256
    → Owned m' kp (n + 1)
consumed-Owned m m' kp n e o small = record {
  key_x = ap (λ a. a.owner_x) e ∙ o.key_x;
  key_y = ap (λ a. a.owner_y) e ∙ o.key_y;
  at_nonce = ap (λ a. a.nonce) e ∙ omega (arith, o.at_nonce);
  free = ap (λ a. a.in_call) e ∙ o.free;
}

pub zero_word : u256_be 0 ≡ word 0
unfolding u256_be to_be_bytes
zero_word = refl

pub one_word : u256_be 1 ≡ word 1
unfolding u256_be to_be_bytes
one_word = refl

pub two_word : u256_be 2 ≡ word 2
unfolding u256_be to_be_bytes
two_word = refl

pub three_word : u256_be 3 ≡ word 3
unfolding u256_be to_be_bytes
three_word = refl

pub gwei_word : u256_be 1_000_000_000 ≡ word 1_000_000_000
unfolding u256_be to_be_bytes
gwei_word = refl

module _ (host : Host) (json : Json) (node : Node host) (laws : IsNode host json node) where
  -- The account of `kp` on the node, between transactions, with the nonce `n`.
  abbrev pub Holds : node.State → Keypair → ℕ → Type 0
  Holds s kp n = Owned (node.machine s) kp n

  pub deploy_lem :
      (kp : Keypair)
      → CanSign host kp
      → (s : node.State) × (deploy_fresh node kp ≡ ok s) × Holds s kp 0 × (node.balance s ≡ 0)
  unfolding deploy_fresh
  deploy_lem kp can = (
    node.deployed (created kp),
    rw (deploy_fresh, constructor_lem kp can.usable)
        (ap (λ p. ok (node.deployed p.1)) (constructor_lem kp can.usable)),
    rw (laws.deployed_machine (created kp))
        (record { key_x = refl; key_y = refl; at_nonce = refl; free = refl }),
    laws.deployed_balance (created kp),
  )

  pub fund_lem :
      (kp : Keypair) (s : node.State) (n wei : ℕ)
      → Holds s kp n
      → (cast_send_value node wei s ≡ ok (node.fund wei s))
        × Holds (node.fund wei s) kp n
        × (node.balance (node.fund wei s) ≡ node.balance s + wei)
  unfolding cast_send_value transact serve Receivers.receive
  fund_lem kp s n wei o = (refl, rw (laws.fund_machine wei s) o, laws.fund_balance wei s)

  sent :
      (q : Request) (s : node.State) (r : Reply)
      → (transact host (node.code s) q (node.machine s)).0 ≡ r
      → is_reverted r ≡ false
      → cast_send node q s ≡ ok (node.send q s)
  unfolding cast_send
  sent q s r e f = rw (e, f) refl

  -- What the call that `execute` makes ends with.
  abbrev pub call_outcome : node.State → ℕ → ℕ → Bytes → Bool × Bytes
  call_outcome s to value payload =
      execute_outcome
        (world host (node.code s) to value payload (opened to value payload (node.machine s))).0

  -- The transaction by which the owner makes a call.
  abbrev pub call_request : Keypair → ℕ → ℕ → Bytes → ℕ → Request
  call_request kp to value payload n =
      Request.execute to value payload n (kp.sign (word (execute_digest host to value payload n)))

  module _ (kp : Keypair) (s : node.State) (n : ℕ) (can : CanSign host kp) (o : Holds s kp n)
      (small : n + 1 < 2 ^ 256) where
    module _ (to value : ℕ) (payload : Bytes) where
      pub execute_done :
          let found = call_outcome s to value payload in
          transact host (node.code s) (call_request kp to value payload n) (node.machine s) ≡ (
            outcome found.0 found.1,
            record {
              account = consumed (node.machine s).account;
              journal =
                  (node.machine s).journal
                  ++ (called to value payload ∷ logged (executed to value n found.0 found.1) ∷ []);
            },
          )
      execute_done =
          let hash = execute_digest host to value payload n in
          let sig = kp.sign (word hash) in
          let r = execute_request host (node.machine s).account to value payload n sig in
          let valid = (validate_execute_request_iff host r).1 (
            sym o.at_nonce,
            (Accepted-iff host hash sig _ _).1 (rw (o.key_x, o.key_y) (can.accepts hash)),
          ) in
          execute-settled host (node.code s) (node.machine s) o.free to value payload n sig valid

      pub execute_lem :
          let q = call_request kp to value payload n in
          (cast_send node q s ≡ ok (node.send q s)) × Holds (node.send q s) kp (n + 1)
      execute_lem =
          let q = call_request kp to value payload n in
          let done = execute_done in
          (
            sent q s _ (ap (λ p. p.0) done) refl,
            rw (laws.send_machine q s)
                (consumed-Owned (node.machine s) _ kp n (ap (λ p. p.1.account) done) o small),
          )

    pub rotate_lem :
        (kp' : Keypair)
        → CanSign host kp'
        → let q =
            Request.rotate_owner kp'.pub_x kp'.pub_y n
              (kp.sign (word (rotate_digest host kp'.pub_x kp'.pub_y n))) in
          (cast_send node q s ≡ ok (node.send q s)) × Holds (node.send q s) kp' (n + 1)
    rotate_lem kp' can' =
        let sig = kp.sign (word (rotate_digest host kp'.pub_x kp'.pub_y n)) in
        let q = Request.rotate_owner kp'.pub_x kp'.pub_y n sig in
        let (reply, x, y, nonces, free) =
          signed_rotation host (node.code s) (node.machine s) o.free kp'.pub_x kp'.pub_y n sig
            (sym o.at_nonce, rw (o.key_x, o.key_y) (can.accepts _)) can'.usable in
        (
          sent q s _ reply refl,
          rw (laws.send_machine q s) (record {
            key_x = x;
            key_y = y;
            at_nonce = nonces ∙ omega (arith, o.at_nonce);
            free = free;
          }),
        )

  module _ (kp : Keypair) (s : node.State) (n : ℕ) (o : Holds s kp n) where
    pub nonce_lem : u256_be n ≡ word n → expect_nonce node n s ≡ ok tt
    unfolding expect_nonce cast_call_u256 transact serve Account.nonce
    nonce_lem e = rw (o.at_nonce, e, bytes_eq_refl (word n)) refl

    pub owner_x_lem : cast_call_u256 node Request.owner_x s ≡ ok (word kp.pub_x)
    unfolding cast_call_u256 transact serve Account.owner_x
    owner_x_lem = rw o.key_x refl

    pub owner_y_lem : cast_call_u256 node Request.owner_y s ≡ ok (word kp.pub_y)
    unfolding cast_call_u256 transact serve Account.owner_y
    owner_y_lem = rw o.key_y refl

  -- The digests that the harness signs.
  pub rotation_hash_lem :
      (kp : Keypair) (n : ℕ)
      → u256_be n ≡ word n
      → rotation_hash node kp n ≡ word (rotate_digest host kp.pub_x kp.pub_y n)
  rotation_hash_lem kp n e =
      ap (rotate_hash (hashing node) host.chain_id (account node) (word kp.pub_x) (word kp.pub_y)) e
      ∙ rotate_hash-agrees host.keccak host.chain_id host.contract_address kp.pub_x kp.pub_y n

  pub call_hash_lem :
      (to value : ℕ) (payload : Bytes) (n : ℕ)
      → u256_be value ≡ word value
      → u256_be n ≡ word n
      → call_hash node to value payload n ≡ word (execute_digest host to value payload n)
  call_hash_lem to value payload n v e =
      ap₂
        (λ a b.
          execute_hash (hashing node) host.chain_id (account node) (to_be_bytes 20 to) a payload b)
        v e
      ∙ execute_hash-agrees host.keccak host.chain_id host.contract_address to value payload n
