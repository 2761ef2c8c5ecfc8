-- ===== src/ReportTool/Screen.antt =====
-- What tools/tessera-reports lets through to a terminal.
pub mod Lines
use Prim.Native.Char.{Char, code}
use tessera_server.Common.{
  ℕ, ◌≡◌, refl, ap₂, String, Bool, true, ◌&&◌, ◌||◌, ltb, leb, ◌==◌, arith, Bool-cases, inl, inr,
}
use tessera_server.Common.Text
use tessera_server.ReportTool.{safe_char, safe}

-- Printed, and not interpreted: a printable ASCII character or a tab.
abbrev pub is_printable : ℕ → Bool
is_printable c = (leb 0x20 c && ltb c 0x7F) || c == 0x09

safe_char_printable : (c : Char) → is_printable (code (safe_char c)) ≡ true
safe_char_printable c = elim (Bool-cases (is_printable (code c))) [
  | inl e ↦ rw (e, safe_char) e
  | inr e ↦ rw (e, safe_char) refl
]

safe_char_lem : (c : Char) → is_printable (code c) ≡ true → safe_char c ≡ c
safe_char_lem c e = rw (e, safe_char) refl

-- `safe` leaves printable ASCII characters and tabs as they are and no other character, makes the
-- text no shorter, and does nothing the second time.
pub safe_printable :
    (s : String)
    → (Text.all is_printable (safe s) ≡ true)
      × (Text.length (safe s) ≡ Text.length s)
      × (safe (safe s) ≡ safe s)
      × (Text.all is_printable s ≡ true → safe s ≡ s)
unfolding safe
safe_printable String.[] = (refl, refl, refl, λ h. refl)
safe_printable (String.◌∷◌ c s) =
    let (printable, long, twice, same) = safe_printable s in
    (
      ground (arith, safe_char_printable c),
      omega arith,
      ap₂ String.◌∷◌ (safe_char_lem (safe_char c) (safe_char_printable c)) twice,
      λ h. ap₂ String.◌∷◌ (safe_char_lem c (ground arith)) (same (ground arith)),
    )
