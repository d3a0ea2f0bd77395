-- ===== src/Login/Tests.antt =====
-- A run of the form: a password is refused, and another is accepted.
use oh_my_terminal.Base.{List, [], ◌∷◌, ◌≡◌, true, false, refl, String-discrete}
use oh_my_terminal.Login.{
  Event, typed, submitted, answered, opened, run, handle, submit, is_empty, settle, settle_from,
  conclude,
}

abbrev tries : List Event
tries =
    submitted
    ∷ typed "abc"
    ∷ submitted
    ∷ submitted
    ∷ answered false
    ∷ typed "abd"
    ∷ submitted
    ∷ answered true
    ∷ submitted
    ∷ []

sent : (run opened tries).requests ≡ "abd" ∷ "abc" ∷ []
unfolding run handle submit is_empty settle settle_from conclude String-discrete
sent = refl
