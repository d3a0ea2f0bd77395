-- ===== src/Font/Stored.antt =====
-- The font and the size are found again, and the size is within its limits.
use oh_my_terminal.Base.{
  ℕ, ◌≤◌, ◌≡◌, ◌∙◌, ap, String, Option, none, some, arith, refl, String-discrete,
}
use oh_my_terminal.FilesPanel.{Parsed, not_a_number, negative, value}
use oh_my_terminal.Font.{
  FontId, system, nanum, jetbrains, fira, ibmplex, sourcecode, detect_font, persist_font,
  font_size_min, font_size_max, clamp_font_size, size_of, detect_font_size, persist_font_size,
}

pub detect_font-persist_font : (i : FontId) → detect_font (persist_font i) ≡ i
unfolding detect_font persist_font String-discrete
detect_font-persist_font system = refl
detect_font-persist_font nanum = refl
detect_font-persist_font jetbrains = refl
detect_font-persist_font fira = refl
detect_font-persist_font ibmplex = refl
detect_font-persist_font sourcecode = refl

size_of-least : (p : Parsed) → (font_size_min ≤ size_of p) × (size_of p ≤ font_size_max)
unfolding size_of clamp_font_size
size_of-least not_a_number = omega arith
size_of-least negative = omega arith
size_of-least (value n) = omega arith

clamp_font_size_twice : (n : ℕ) → clamp_font_size (clamp_font_size n) ≡ clamp_font_size n
unfolding clamp_font_size
clamp_font_size_twice n = omega arith

module _ (parse_int : String → Parsed) (print : ℕ → String) where
  pub detect_font_size-least :
      (o : Option String)
      → (font_size_min ≤ detect_font_size parse_int print o)
        × (detect_font_size parse_int print o ≤ font_size_max)
  unfolding detect_font_size
  detect_font_size-least none = omega arith
  detect_font_size-least (some raw) = size_of-least (parse_int raw)

  -- If a printed number is read back as it was: a font that is stored is found again, a size that is
  -- stored is found again as the nearest one within the limits, and whatever is stored, the size that
  -- is found is within the limits.
  pub detect-persist :
      ((n : ℕ) → parse_int (print n) ≡ value n)
      → (i : FontId) (n : ℕ) (stored : Option String)
      → (detect_font (persist_font i) ≡ i)
        × (detect_font_size parse_int print (persist_font_size parse_int print n)
            ≡ clamp_font_size n)
        × (font_size_min ≤ detect_font_size parse_int print stored)
        × (detect_font_size parse_int print stored ≤ font_size_max)
  unfolding detect_font_size persist_font_size size_of
  detect-persist back i n stored =
      let (least, most) = detect_font_size-least stored in
      (
        detect_font-persist_font i,
        ap size_of (back (clamp_font_size n)) ∙ clamp_font_size_twice n,
        least,
        most,
      )
