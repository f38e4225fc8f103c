-- ===== src/Harness/Main/Generated.antt =====
-- The command line with keys of the p256 crate.
use stylus_mobile_native_aut.Base.{
  ℕ, ◌-◌, ◌/◌, ◌≡◌, [], ◌∷◌, ◌++◌, Option, none, some, ok, true, ltb, if◌then◌else◌, Option-cases,
  inl, inr, arith,
}
use stylus_mobile_native_aut.Bytes.{Bytes}
use stylus_mobile_native_aut.Bytes.Valid.{AreBytes, append-AreBytes, to_be_bytes-AreBytes}
use stylus_mobile_native_aut.Eip712.{word}
use stylus_mobile_native_aut.P256.{is_valid_pubkey}
use stylus_mobile_native_aut.P256.Curve.{is_valid_pubkey_iff}
use stylus_mobile_native_aut.P256.Values.{order}
use stylus_mobile_native_aut.Harness.Digests.{keccak256}
use stylus_mobile_native_aut.Harness.Keys.{
  Crate, sign, coordinates, joined_scalars, coordinates_lem, joined_encode,
}
use stylus_mobile_native_aut.Harness.Main.{Cmd, main}
use stylus_mobile_native_aut.Harness.Main.Passing.{Offered, printed, main_passes}
use stylus_mobile_native_aut.Harness.Node.{IsNode}
use stylus_mobile_native_aut.Harness.Receipt.{Json}
use stylus_mobile_native_aut.Harness.Scenarios.Signing.{Signs, keypair_of, sign-CanSign}
use stylus_mobile_native_aut.Harness.Session.Signed.{IsKey}
use stylus_mobile_native_aut.Harness.Session.Table.{tests}
use stylus_mobile_native_aut.Harness.Session.World.{World, IsHex, Speaks}
use stylus_mobile_native_aut.Harness.Shell.{Tools}
use stylus_mobile_native_aut.Harness.Shell.Commands.{Ctx, make_ctx}

joined_scalars-AreBytes : (crate : Crate) (sig : ℕ × ℕ) → AreBytes (joined_scalars crate sig)
joined_scalars-AreBytes crate (r, s) =
    rw (joined_encode crate r s)
      (append-AreBytes (word r) (word s) (to_be_bytes-AreBytes 32 r) (to_be_bytes-AreBytes 32 s))

-- Whatever the crate signs, `sign` gives bytes.
abbrev signature_or_none : Option Bytes → Bytes
signature_or_none none = []
signature_or_none (some signature) = signature

normal-AreBytes :
    (crate : Crate) (sig : ℕ × ℕ) (normal : Option (ℕ × ℕ))
    → AreBytes (
        signature_or_none (elim normal [
          | none ↦ some (joined_scalars crate sig)
          | some n ↦ some (joined_scalars crate n)
        ]))
normal-AreBytes crate sig none = joined_scalars-AreBytes crate sig
normal-AreBytes crate sig (some n) = joined_scalars-AreBytes crate n

sign-AreBytes :
    (crate : Crate) (sk : crate.SigningKey) (hash : Bytes)
    → AreBytes (elim (sign crate sk hash) [ none ↦ [] | some signature ↦ signature ])
unfolding sign
sign-AreBytes crate sk hash = elim (Option-cases (crate.sign_prehash sk hash)) [
  | inl e ↦ rw (sign, e) tt
  | inr (sig, e) ↦ rw (sign, e) (normal-AreBytes crate sig (crate.normalize_s sig))
]

keypair_of-IsKey :
    (crate : Crate) (sk : crate.SigningKey) (x y : ℕ)
    → is_valid_pubkey x y ≡ true
    → IsKey (keypair_of crate sk x y)
keypair_of-IsKey crate sk x y usable =
    let (a, small_x, b, small_y, on) = (is_valid_pubkey_iff x y).0 usable in
    record {
      small_x = omega (arith, small_x);
      small_y = omega (arith, small_y);
      signs = sign-AreBytes crate sk;
    }

module _ (crate : Crate)
    (normal : (r s : ℕ)
      → crate.normalize_s (r, s) ≡ (if ltb (order / 2) s then some (r, order - s) else none))
    (sk : ℕ → crate.SigningKey) (x y : ℕ → ℕ)
    (encoded : (n : ℕ) → crate.encoded_point (sk n) ≡ 0x04 ∷ (word (x n) ++ word (y n)))
    (usable : (n : ℕ) → is_valid_pubkey (x n) (y n) ≡ true) where
  module _ (tools : Tools) (hex : IsHex tools) (world : World tools) (keccak : Bytes → ℕ)
      (json : Json) (nodes : (i : ℕ) → IsNode (world.host i) json (world.node i))
      (signs : (i n hash : ℕ) → Signs (world.host i) crate (sk n) (x n) (y n) hash) where
    -- With keys of a p256 crate whose encoded points are `0x04 ‖ x ‖ y` of usable keys, whose
    -- `normalize_s` mirrors an `s` in the upper half of the order and leaves every other, and whose
    -- signatures verify with their mirror images, with tools that speak for a chain of nodes that obey
    -- `IsNode`, hex that obeys `IsHex` and a setup that succeeds: `Keypair::generate` gives the words of
    -- `x` and `y`, and no command, `all`, `list` and `run` with the name of a test succeed.
    pub generated_passes :
        (cmd : Option Cmd) (sys : tools.Sys) (ctx : Ctx)
        → Offered cmd
        → (make_ctx tools sys).0 ≡ ok ctx
        → Speaks tools world ctx keccak
        → let generate = λ (n : ℕ). keypair_of crate (sk n) (x n) (y n) in
          ((n : ℕ) → coordinates crate (sk n) ≡ some (word (x n), word (y n)))
          × ((main tools (tests tools (keccak256 keccak) json generate) cmd sys).0
              ≡ ok (printed cmd))
    generated_passes cmd sys ctx known made speaks = (
      λ n. coordinates_lem crate (sk n) (x n) (y n) (encoded n),
      main_passes tools hex world keccak json (λ n. keypair_of crate (sk n) (x n) (y n)) nodes
          (λ i n.
            sign-CanSign (world.host i) crate normal (sk n) (x n) (y n) (usable n) (signs i n))
          (λ n. keypair_of-IsKey crate (sk n) (x n) (y n) (usable n)) cmd sys ctx known made speaks,
    )
