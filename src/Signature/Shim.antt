-- ===== src/Signature/Shim.antt =====
-- The stand-in for the precompile in the host-side tests of
-- contracts/stylus/p256-account/src/lib.rs, `test_precompile`: a cell with the next answer, and a cell
-- with the last input.
use stylus_mobile_native_aut.Base.{
  ℕ, ◌≡◌, refl, Bool, true, false, Option, none, some, [], ◌∷◌, ◌++◌,
}
use stylus_mobile_native_aut.Bytes.{Bytes, zeros}
use stylus_mobile_native_aut.Signature.{is_magic, precompile_input}

-- `NEXT` and `LAST_INPUT`
pub record Cells : Type 0 where
  pub next_outcome : Option Bool
  pub last_input : Option Bytes

unfoldable pub expect_next : Bool → Cells → Cells
expect_next result cells = record cells { next_outcome = some result }

unfoldable pub clear : Cells → Cells
clear cells = record cells { next_outcome = none; last_input = none }

-- `take` empties the cell; `vec![0u8; 32]` with its last byte set to 1.
unfoldable pub dispatch : Bytes → Cells → Option Bytes × Cells
dispatch input cells =
    let used = record cells { next_outcome = none; last_input = some input } in
    elim cells.next_outcome [
      | some true ↦ (some (zeros 31 ++ (1 ∷ [])), used)
      | some false ↦ (some (zeros 32), used)
      | none ↦ (none, used)
    ]

-- `verify_p256_precompile` over the stand-in.
unfoldable pub verify_with_shim : ℕ → ℕ → ℕ → ℕ → ℕ → Cells → Bool × Cells
unfolding dispatch
verify_with_shim hash r s x y cells =
    let (answer, cells') = dispatch (precompile_input hash r s x y) cells in
    (elim answer [ some output ↦ is_magic output | none ↦ false ], cells')

-- An expectation decides exactly the next check and is then used up: the check after it fails, unless
-- a new expectation is set. Each check leaves its own input in the cell.
pub shim_once :
    (result : Bool) (hash r s x y hash' r' s' x' y' : ℕ) (cells : Cells)
    → let first = verify_with_shim hash r s x y (expect_next result cells) in
      let second = verify_with_shim hash' r' s' x' y' first.1 in
      (first.0 ≡ result)
      × (first.1.last_input ≡ some (precompile_input hash r s x y))
      × (second.0 ≡ false)
      × (second.1.last_input ≡ some (precompile_input hash' r' s' x' y'))
unfolding verify_with_shim expect_next
shim_once true hash r s x y hash' r' s' x' y' cells = (refl, refl, refl, refl)
shim_once false hash r s x y hash' r' s' x' y' cells = (refl, refl, refl, refl)
