-- ===== src/Confirm.antt =====
-- frontend/src/components/ConfirmDialog.tsx: the question that a dialog asks. `asked` has the
-- promises that `confirm` returned, by number, and `settled` the values that they were resolved
-- with, latest first; resolving a promise again has no effect, and is listed all the same.
pub mod Promises
mod Tests
use oh_my_terminal.Base.{ℕ, suc, String, Option, none, some, Bool, true, false, List, [], ◌∷◌}

pub record ConfirmOptions : Type 0 where
  pub title : String
  pub message : String
  pub confirm_label : Option String
  pub cancel_label : Option String
  pub danger : Option Bool

pub record Dialog : Type 0 where
  pub shown : Option ConfirmOptions
  -- `resolveRef.current`, as the number of its promise
  pub resolver : Option ℕ
  pub asked : ℕ
  pub settled : List (ℕ × Bool)

-- `resolveRef.current?.(ok)`
unfoldable pub resolve : Option ℕ → Bool → List (ℕ × Bool) → List (ℕ × Bool)
resolve none ok done = done
resolve (some p) ok done = (p, ok) ∷ done

unfoldable pub settle : Bool → Dialog → Dialog
unfolding resolve
settle ok s = record s { settled = resolve s.resolver ok s.settled; resolver = none; shown = none }

unfoldable pub confirm : ConfirmOptions → Dialog → Dialog
unfolding resolve
confirm opts s = record {
  shown = some opts;
  resolver = some s.asked;
  asked = suc s.asked;
  settled = resolve s.resolver false s.settled;
}

pub data Event : Type 0 where
  asks : ConfirmOptions → Event
  answers : Bool → Event

-- The buttons and `onClose` are there only while the dialog is open.
unfoldable pub answer_shown : Bool → Option ConfirmOptions → Dialog → Dialog
unfolding settle
answer_shown ok none s = s
answer_shown ok (some _) s = settle ok s

unfoldable pub step : Dialog → Event → Dialog
unfolding answer_shown
step s (asks opts) = confirm opts s
step s (answers ok) = answer_shown ok s.shown s

unfoldable pub run : Dialog → List Event → Dialog
run s [] = s
run s (e ∷ es) = run (step s e) es

abbrev pub at_rest : Dialog
at_rest = record { shown = none; resolver = none; asked = 0; settled = [] }
