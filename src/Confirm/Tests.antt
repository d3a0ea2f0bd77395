-- ===== src/Confirm/Tests.antt =====
-- A run of the dialog, and its theorem at it.
use oh_my_terminal.Base.{◌≡◌, none, some, true, false, List, [], ◌∷◌, refl}
use oh_my_terminal.Confirm.{
  ConfirmOptions, Event, asks, answers, settle, confirm, answer_shown, resolve, step, run, at_rest,
}
use oh_my_terminal.Confirm.Promises.{IsSound, run-at_rest-IsSound}

abbrev question : ConfirmOptions
question = record {
  title = "Delete";
  message = "Delete it?";
  confirm_label = none;
  cancel_label = none;
  danger = some true;
}

-- The second question cancels the first.
abbrev asked_twice : List Event
asked_twice = asks question ∷ asks question ∷ answers true ∷ []

asked_twice-settled : (run at_rest asked_twice).settled ≡ (1, true) ∷ (0, false) ∷ []
unfolding run step confirm answer_shown settle resolve
asked_twice-settled = refl

run-at_rest-IsSound_example : IsSound (run at_rest asked_twice)
run-at_rest-IsSound_example = run-at_rest-IsSound asked_twice
