-- ===== src/Settings/Tests.antt =====
-- A run of the menu, and its theorem at it.
use oh_my_terminal.Base.{none, List, [], ◌∷◌}
use oh_my_terminal.FilesPanel.Unary.{print, parse_int, parse_int-print}
use oh_my_terminal.Settings.{
  Storage, Event, toggles, picks_font, increases, opens_stats, decreases, run, start,
}
use oh_my_terminal.Settings.Reload.{IsKept, run-start-IsKept}

abbrev empty : Storage
empty = record { lang = none; font = none; font_size = none }

-- The last press comes after the menu is shut.
abbrev presses : List Event
presses = toggles ∷ picks_font "fira" ∷ increases ∷ opens_stats ∷ decreases ∷ []

run-start-IsKept_example :
    IsKept parse_int print
      (λ s. s)
      "ko-KR"
      (run parse_int print (start parse_int print (λ s. s) "ko-KR" empty) presses)
run-start-IsKept_example =
    run-start-IsKept parse_int print (λ s. s) "ko-KR" parse_int-print empty presses
