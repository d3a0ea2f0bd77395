-- ===== src/MobileInput.antt =====
-- frontend/src/features/split/MobileInputOverlay.tsx: the field in which a phone's keyboard types, and
-- the panel of special keys. A text is a list of code units; `output` is what the terminal has been
-- given by `input`, in order.
pub mod Sending
mod Tests
use oh_my_terminal.Base.{
  ℕ, String, String-discrete, Option, none, some, List, [], ◌∷◌, ◌++◌, Bool, true, false, ltb,
  length, ite, ◌&&◌, if◌then◌else◌,
}

-- `KEY_SEQUENCES`
unfoldable pub key_sequence : String → Option (List ℕ)
key_sequence key =
    ite (String-discrete key "Escape") (some (27 ∷ []))
      (ite (String-discrete key "Tab") (some (9 ∷ [])) none)

-- `EXTRA_KEYS`: the labels and the sequences.
abbrev pub extra_keys : List (String × List ℕ)
extra_keys =
    ("ESC", 27 ∷ [])
    ∷ ("TAB", 9 ∷ [])
    ∷ ("⌫", 127 ∷ [])
    ∷ ("↑", 27 ∷ 91 ∷ 65 ∷ [])
    ∷ ("↓", 27 ∷ 91 ∷ 66 ∷ [])
    ∷ ("→", 27 ∷ 91 ∷ 67 ∷ [])
    ∷ ("←", 27 ∷ 91 ∷ 68 ∷ [])
    ∷ ("^C", 3 ∷ [])
    ∷ ("^D", 4 ∷ [])
    ∷ ("^Z", 26 ∷ [])
    ∷ ("^L", 12 ∷ [])
    ∷ ("^B", 2 ∷ [])
    ∷ ("^A", 1 ∷ [])
    ∷ ("^E", 5 ∷ [])
    ∷ ("^U", 21 ∷ [])
    ∷ ("^K", 11 ∷ [])
    ∷ ("^W", 23 ∷ [])
    ∷ ("^R", 18 ∷ [])
    ∷ ("HOME", 27 ∷ 91 ∷ 72 ∷ [])
    ∷ ("END", 27 ∷ 91 ∷ 70 ∷ [])
    ∷ ("PGUP", 27 ∷ 91 ∷ 53 ∷ 126 ∷ [])
    ∷ ("PGDN", 27 ∷ 91 ∷ 54 ∷ 126 ∷ [])
    ∷ []

pub record Overlay : Type 0 where
  -- the value of the field, if that is there
  pub field : Option (List ℕ)
  pub has_terminal : Bool
  pub output : List ℕ
  pub field_focused : Bool

unfoldable pub send : List ℕ → Overlay → Overlay
send data_sent s =
    if ltb 0 (length data_sent) && s.has_terminal
    then record s { output = s.output ++ data_sent }
    else s

flush_value : Option (List ℕ) → Overlay → Overlay
unfolding send
flush_value none s = s
flush_value (some value) s = record (send value s) { field = some [] }

unfoldable pub flush : Overlay → Overlay
unfolding flush_value
flush s = flush_value s.field s

focus_field : Option (List ℕ) → Overlay → Overlay
focus_field none s = s
focus_field (some _) s = record s { field_focused = true }

abbrev pub carriage_return : ℕ
carriage_return = 13

unfoldable pub on_send : Overlay → Overlay
unfolding flush send focus_field
on_send s = let t = send (carriage_return ∷ []) (flush s) in focus_field t.field t

-- The effect when the pane loses the focus.
unfoldable pub on_unfocused : Overlay → Overlay
unfolding flush
on_unfocused s = record (flush s) { field_focused = false }

send_key : Option (List ℕ) → Overlay → Overlay
unfolding send
send_key none s = s
send_key (some seq) s = send seq s

-- A key is pressed in the field; one that has no sequence is left to the browser.
unfoldable pub on_key_down : Bool → String → Overlay → Overlay
unfolding send_key key_sequence
on_key_down composing key s = if composing then s else send_key (key_sequence key) s

unfoldable pub on_extra_key : List ℕ → Overlay → Overlay
unfolding send focus_field
on_extra_key seq s = focus_field s.field (send seq s)

pub data Event : Type 0 where
  -- the browser edits the field: a text is typed at its end, or it has a new value
  typed edited : List ℕ → Event
  key_down : (composing : Bool) (key : String) → Event
  extra_key : (seq : List ℕ) → Event
  sent unfocused : Event

type_at_end : List ℕ → Option (List ℕ) → Option (List ℕ)
type_at_end s none = none
type_at_end s (some value) = some (value ++ s)

edit_value : List ℕ → Option (List ℕ) → Option (List ℕ)
edit_value s none = none
edit_value s (some value) = some s

unfoldable pub step : Overlay → Event → Overlay
unfolding type_at_end edit_value on_key_down on_extra_key on_send on_unfocused
step s (typed text) = record s { field = type_at_end text s.field }
step s (edited value) = record s { field = edit_value value s.field }
step s (key_down composing key) = on_key_down composing key s
step s (extra_key seq) = on_extra_key seq s
step s sent = on_send s
step s unfocused = on_unfocused s

unfoldable pub run : Overlay → List Event → Overlay
unfolding step
run s [] = s
run s (e ∷ es) = run (step s e) es
