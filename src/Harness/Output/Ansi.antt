-- ===== src/Harness/Output/Ansi.antt =====
-- What `strip_ansi` leaves of a coloured text.
use stylus_mobile_native_aut.Base.{ℕ, ◌≡◌, ◌≢◌, refl, ap, ◌∙◌, false, [], ◌∷◌, ne→==}
use stylus_mobile_native_aut.Bytes.{Bytes}
use stylus_mobile_native_aut.Harness.Output.{is_ascii_alphabetic, strip_loop, strip_ansi}

-- No byte is ESC.
abbrev pub NoEscape : Bytes → Type 0
NoEscape [] = Unit {0}
NoEscape (b ∷ bs) = (b ≢ 0x1b) × NoEscape bs

-- No byte is a letter: the parameters of a control sequence.
abbrev pub NoLetter : Bytes → Type 0
NoLetter [] = Unit {0}
NoLetter (b ∷ bs) = (is_ascii_alphabetic b ≡ false) × NoLetter bs

keep_byte :
    (b c : ℕ) (bs : Bytes)
    → b ≢ 0x1b
    → strip_loop false (b ∷ (c ∷ bs)) ≡ b ∷ strip_loop false (c ∷ bs)
unfolding strip_loop
keep_byte b c bs h = rw (ne→== b 0x1b h) refl

-- A text without ESC is left as it is.
pub strip_ansi-plain : (s : Bytes) → NoEscape s → strip_ansi s ≡ s
unfolding strip_ansi strip_loop
strip_ansi-plain [] h = refl
strip_ansi-plain (b ∷ []) h = refl
strip_ansi-plain (b ∷ (c ∷ bs)) (h, hs) =
    keep_byte b c bs h ∙ ap (λ l. b ∷ l) (strip_ansi-plain (c ∷ bs) hs)
