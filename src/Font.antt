-- ===== src/Font.antt =====
-- frontend/src/lib/font.ts: the fonts to choose from, and the font and its size as the browser's
-- storage keeps them. `print` and `parse_int` are the platform's, as in FilesPanel.
pub mod Stored
mod Tests
use oh_my_terminal.Base.{ℕ, String, String-discrete, Option, none, some, List, [], ◌∷◌, ite}
use Prim.Native.Nat.{max, min}
use Prim.Native.String.{◌++◌}
use oh_my_terminal.FilesPanel.{Parsed, not_a_number, negative, value}

pub data FontId : Type 0 where
  system nanum jetbrains fira ibmplex sourcecode : FontId

abbrev pub font_name : FontId → String
font_name system = "system"
font_name nanum = "nanum"
font_name jetbrains = "jetbrains"
font_name fira = "fira"
font_name ibmplex = "ibmplex"
font_name sourcecode = "sourcecode"

pub record FontPreset : Type 0 where
  pub id : FontId
  pub label_key : String
  pub stack : String

abbrev pub korean_mono : String
korean_mono = "\"Nanum Gothic Coding\""

abbrev pub korean_sans_tail : String
korean_sans_tail = "\"Nanum Gothic\", \"Malgun Gothic\", \"Apple SD Gothic Neo\", monospace"

-- A font in front of the Korean ones.
abbrev pub with_korean : String → String
with_korean front = front ++ (", " ++ (korean_mono ++ (", " ++ korean_sans_tail)))

abbrev pub system_font_stack : String
system_font_stack = with_korean "ui-monospace, \"SF Mono\", \"Cascadia Code\", Menlo, Consolas"

abbrev pub preset : FontId → String → String → FontPreset
preset i label s = record { id = i; label_key = label; stack = s }

abbrev pub font_presets : List FontPreset
font_presets =
    preset system "font.system" system_font_stack
    ∷ preset nanum "font.nanum" (korean_mono ++ (", " ++ korean_sans_tail))
    ∷ preset jetbrains "font.jetbrains" (with_korean "\"JetBrains Mono\"")
    ∷ preset fira "font.fira" (with_korean "\"Fira Code\"")
    ∷ preset ibmplex "font.ibmplex" (with_korean "\"IBM Plex Mono\"")
    ∷ preset sourcecode "font.sourcecode" (with_korean "\"Source Code Pro\"")
    ∷ []

-- `FONT_PRESETS.find((p) => p.id === stored)`
unfoldable pub find_preset : String → List FontPreset → Option FontPreset
find_preset stored [] = none
find_preset stored (p ∷ ps) =
    ite (String-discrete (font_name p.id) stored) (some p) (find_preset stored ps)

unfoldable pub id_or_system : Option FontPreset → FontId
id_or_system none = system
id_or_system (some p) = p.id

-- With nothing stored no preset is found.
unfoldable pub detect_font : Option String → FontId
unfolding find_preset id_or_system
detect_font none = system
detect_font (some stored) = id_or_system (find_preset stored font_presets)

-- What the storage has after `persistFont`.
unfoldable pub persist_font : FontId → Option String
persist_font i = some (font_name i)

abbrev pub font_size_min : ℕ
font_size_min = 10

abbrev pub font_size_max : ℕ
font_size_max = 24

abbrev pub font_size_default : ℕ
font_size_default = 13

unfoldable pub clamp_font_size : ℕ → ℕ
clamp_font_size size = min font_size_max (max font_size_min size)

unfoldable pub size_of : Parsed → ℕ
unfolding clamp_font_size
size_of not_a_number = font_size_default
size_of negative = font_size_min
size_of (value n) = clamp_font_size n

module _ (parse_int : String → Parsed) (print : ℕ → String) where
  unfoldable pub detect_font_size : Option String → ℕ
  unfolding size_of
  detect_font_size none = font_size_default
  detect_font_size (some raw) = size_of (parse_int raw)

  unfoldable pub persist_font_size : ℕ → Option String
  unfolding clamp_font_size
  persist_font_size size = some (print (clamp_font_size size))
