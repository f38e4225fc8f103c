-- ===== src/UnitTests/Selectors.antt =====
-- The test of contracts/stylus/p256-account/src/lib.rs that searches the source file for the attributes of
-- the token hooks. The text of the file is a parameter.
use stylus_mobile_native_aut.Base.{◌≡◌, ◌↔◌, refl, Bool, true, ◌&&◌, List, [], ◌∷◌, ◌++◌, &&_iff}
use stylus_mobile_native_aut.Harness.{as_bytes}
use stylus_mobile_native_aut.Harness.Output.{Text, contains}
use stylus_mobile_native_aut.Harness.Output.Occurs.{Occurs, contains_iff}

-- `format!("#[selector(name = \"{name}\")]")`
abbrev pub selector_attribute : Text → Text
selector_attribute name = as_bytes "#[selector(name = " ++ (b'"' ∷ (name ++ (b'"' ∷ as_bytes ")]")))

abbrev pub hook_names : List Text
hook_names =
    as_bytes "onERC721Received"
    ∷ as_bytes "onERC1155Received"
    ∷ as_bytes "onERC1155BatchReceived"
    ∷ []

abbrev pub all_attributes : List Text → Text → Bool
all_attributes [] src = true
all_attributes (name ∷ names) src =
    contains src (selector_attribute name) && all_attributes names src

unfoldable pub selector_overrides_for_the_token_hooks_are_present_in_source : Text → Bool
selector_overrides_for_the_token_hooks_are_present_in_source src = all_attributes hook_names src

abbrev pub AllOccur : List Text → Text → Type 0
AllOccur [] src = Unit {0}
AllOccur (name ∷ names) src = Occurs (selector_attribute name) src × AllOccur names src

all_attributes_iff :
    (names : List Text) (src : Text) → (all_attributes names src ≡ true) ↔ AllOccur names src
all_attributes_iff [] src = (λ _. tt, λ _. refl)
all_attributes_iff (name ∷ names) src =
    let one = contains_iff src (selector_attribute name) in
    let rest = all_attributes_iff names src in
    let both = &&_iff (contains src (selector_attribute name)) (all_attributes names src) in
    (λ h. let (x, y) = both.0 h in (one.0 x, rest.0 y), λ (x, y). both.1 (one.1 x, rest.1 y))

-- The test passes on exactly the files in which the attribute of each of the three hooks occurs.
pub selector_overrides_iff :
    (src : Text)
    → (selector_overrides_for_the_token_hooks_are_present_in_source src ≡ true)
      ↔ AllOccur hook_names src
unfolding selector_overrides_for_the_token_hooks_are_present_in_source
selector_overrides_iff src = all_attributes_iff hook_names src
