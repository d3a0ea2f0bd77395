-- ===== src/Settings.antt =====
-- The language, the font and its size in frontend/src/App.tsx, and the menu that sets them in
-- frontend/src/components/SettingsMenu.tsx. What the browser's storage has is beside them. The
-- platform's functions are as in Font and I18n.
pub mod Reload
mod Tests
use oh_my_terminal.Base.{
  ℕ, suc, ◌-◌, String, Option, none, some, Bool, true, false, not, leb, List, [], ◌∷◌, ◌&&◌,
  if◌then◌else◌,
}
use oh_my_terminal.FilesPanel.{Parsed}
use oh_my_terminal.Font.{
  FontId, FontPreset, font_presets, find_preset, font_size_min, font_size_max, detect_font,
  persist_font, detect_font_size, persist_font_size,
}
use oh_my_terminal.I18n.{Lang, detect_lang, persist_lang}

pub record Storage : Type 0 where
  pub lang : Option String
  pub font : Option String
  pub font_size : Option String

pub record Settings : Type 0 where
  pub lang : Lang
  pub font : FontId
  pub font_size : ℕ
  pub storage : Storage
  -- `settingsOpen`
  pub settings_open : Bool
  -- the calls of `onOpenStats`
  pub stats_opened : ℕ

pub data Event : Type 0 where
  toggles : Event
  -- whether the target is in the menu
  points : (in_menu : Bool) → Event
  escapes : Event
  picks_lang : Lang → Event
  picks_font : (id : String) → Event
  decreases increases opens_stats : Event

unfoldable pub set_lang : Lang → Settings → Settings
unfolding persist_lang
set_lang next s = record s { lang = next; storage = record s.storage { lang = persist_lang next } }

unfoldable pub set_font : FontId → Settings → Settings
unfolding persist_font
set_font next s = record s { font = next; storage = record s.storage { font = persist_font next } }

unfoldable pub choose_preset : Option FontPreset → Settings → Settings
unfolding set_font
choose_preset none s = s
choose_preset (some p) s = set_font p.id s

-- The listeners are there while the menu is open.
unfoldable pub on_pointer_down : Bool → Settings → Settings
on_pointer_down in_menu s = record s { settings_open = s.settings_open && in_menu }

unfoldable pub open_stats : Settings → Settings
open_stats s = record s { settings_open = false; stats_opened = suc s.stats_opened }

module _ (parse_int : String → Parsed) (print : ℕ → String) where
  unfoldable pub set_font_size : ℕ → Settings → Settings
  unfolding persist_font_size
  set_font_size next s = record s {
    font_size = next;
    storage = record s.storage { font_size = persist_font_size parse_int print next };
  }

  -- A button that is disabled is not clicked.
  unfoldable pub decrease : Settings → Settings
  unfolding set_font_size
  decrease s = if leb s.font_size font_size_min then s else set_font_size (s.font_size - 1) s

  unfoldable pub increase : Settings → Settings
  unfolding set_font_size
  increase s = if leb font_size_max s.font_size then s else set_font_size (suc s.font_size) s

  -- What the items of the open menu do.
  unfoldable pub use_menu : Event → Settings → Settings
  unfolding set_lang choose_preset decrease increase open_stats
  use_menu toggles s = s
  use_menu (points _) s = s
  use_menu escapes s = s
  use_menu (picks_lang next) s = set_lang next s
  use_menu (picks_font id) s = choose_preset (find_preset id font_presets) s
  use_menu decreases s = decrease s
  use_menu increases s = increase s
  use_menu opens_stats s = open_stats s

  unfoldable pub step : Settings → Event → Settings
  unfolding use_menu on_pointer_down
  step s toggles = record s { settings_open = not s.settings_open }
  step s (points in_menu) = on_pointer_down in_menu s
  step s escapes = record s { settings_open = false }
  step s (picks_lang next) = if s.settings_open then use_menu (picks_lang next) s else s
  step s (picks_font id) = if s.settings_open then use_menu (picks_font id) s else s
  step s decreases = if s.settings_open then use_menu decreases s else s
  step s increases = if s.settings_open then use_menu increases s else s
  step s opens_stats = if s.settings_open then use_menu opens_stats s else s

  unfoldable pub run : Settings → List Event → Settings
  unfolding step
  run s [] = s
  run s (e ∷ es) = run (step s e) es

  -- The first render, with what the storage has.
  unfoldable pub start : (String → String) → String → Storage → Settings
  unfolding detect_lang detect_font detect_font_size
  start to_lower language st = record {
    lang = detect_lang to_lower language st.lang;
    font = detect_font st.font;
    font_size = detect_font_size parse_int print st.font_size;
    storage = st;
    settings_open = false;
    stats_opened = 0;
  }
