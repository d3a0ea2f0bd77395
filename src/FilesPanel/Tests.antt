-- ===== src/FilesPanel/Tests.antt =====
-- A run of the panel, and its theorem at it.
use oh_my_terminal.Base.{◌≡◌, none, List, [], ◌∷◌, refl, arith}
use oh_my_terminal.FilesPanel.{
  Event, pointer_down, pointer_move, pointer_end, key_down, arrow_left, run, start, step,
  on_pointer_down, on_pointer_move, end_resize, on_key_down, stored_width, set_width,
  clamp_difference, width_of,
}
use oh_my_terminal.FilesPanel.Unary.{print, parse_int, parse_half, parse_half-print}
use oh_my_terminal.FilesPanel.Stored.{IsSound, run-start-IsSound}

-- The panel is dragged to the left and then made wider by a key, by half a pixel too many.
abbrev dragged : List Event
dragged = pointer_down 1000 ∷ pointer_move 900 ∷ pointer_end 881 ∷ key_down arrow_left ∷ []

dragged-files_width :
    (run 2 parse_half print (start 2 parse_half print none) dragged).files_width ≡ 807
unfolding run step on_pointer_down on_pointer_move end_resize on_key_down stored_width set_width
    clamp_difference
dragged-files_width = refl

-- 403.5 pixels come back as 403.
dragged-stored_width :
    stored_width 2 parse_half print
      (run 2 parse_half print (start 2 parse_half print none) dragged).stored
    ≡ 806
unfolding run step on_pointer_down on_pointer_move end_resize on_key_down stored_width set_width
    clamp_difference width_of print parse_int
dragged-stored_width = refl

run-start-IsSound_example :
    IsSound 2 parse_half print (run 2 parse_half print (start 2 parse_half print none) dragged)
run-start-IsSound_example =
    run-start-IsSound 2 parse_half print (omega arith) parse_half-print none dragged
