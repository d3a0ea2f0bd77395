-- ===== src/MobileInput/Tests.antt =====
-- A run of the overlay, and the theorem at it.
use oh_my_terminal.Base.{◌≡◌, some, List, [], ◌∷◌, ◌++◌, true, false, refl, String-discrete}
use oh_my_terminal.MobileInput.{
  Overlay, Event, typed, sent, unfocused, key_down, run, step, on_send, on_unfocused, flush, send,
  on_key_down, key_sequence,
}
use oh_my_terminal.MobileInput.Sending.{IsWhole, said, run-IsWhole}

abbrev empty : Overlay
empty = record { field = some []; has_terminal = true; output = []; field_focused = false }

-- "ls", a line feed and "a" are typed, the button is pressed, and the pane is left with "b" typed.
abbrev typing : List Event
typing = typed (108 ∷ 115 ∷ []) ∷ typed (10 ∷ 97 ∷ []) ∷ sent ∷ typed (98 ∷ []) ∷ unfocused ∷ []

run-IsWhole_example : IsWhole ([] ++ said typing) (run empty typing)
run-IsWhole_example =
    run-IsWhole typing [] empty (tt, (tt, (tt, (tt, (tt, tt))))) ([], refl, refl, refl)

given : (run empty typing).output ≡ 108 ∷ 115 ∷ 10 ∷ 97 ∷ 13 ∷ 98 ∷ []
unfolding run step on_send on_unfocused flush send
given = refl

-- A special key is given to the terminal before what is still in the field.
tab_first :
    (run empty (typed (108 ∷ []) ∷ key_down false "Tab" ∷ sent ∷ [])).output ≡ 9 ∷ 108 ∷ 13 ∷ []
unfolding run step on_send flush send on_key_down key_sequence String-discrete
tab_first = refl

-- While a syllable is composed, keys are left to the browser.
composing_kept : (run empty (key_down true "Escape" ∷ [])).output ≡ []
unfolding run step on_key_down
composing_kept = refl
