-- ===== src/Login/Submits.antt =====
-- What the form sends.
use oh_my_terminal.Base.{
  ◌+◌, ◌≡◌, ◌≢◌, List, [], ◌∷◌, Bool, true, false, All, arith, refl, if◌then◌else◌,
}
use oh_my_terminal.Login.{
  LoginState, Event, typed, submitted, answered, opened, is_empty, submit, settle, settle_from,
  conclude, handle, run,
}

-- The form is busy exactly while a request is in flight or after the login; there is one of these at
-- most, the form shows no failure then, and no empty password has been sent.
abbrev pub IsSound : LoginState → Type 0
IsSound s =
    (s.in_flight + s.logins ≡ (if s.busy then 1 else 0))
    × (s.busy ≡ true → s.failed ≡ false)
    × All (λ p. p ≢ "") s.requests

submit-IsSound : (s : LoginState) → IsSound s → IsSound (submit s)
unfolding submit is_empty
submit-IsSound s v = ground arith

settle-IsSound : (ok : Bool) (s : LoginState) → IsSound s → IsSound (settle ok s)
unfolding settle settle_from conclude
settle-IsSound ok s v = ground arith

handle-IsSound : (s : LoginState) (e : Event) → IsSound s → IsSound (handle s e)
unfolding handle
handle-IsSound s (typed value) v = v
handle-IsSound s submitted v = submit-IsSound s v
handle-IsSound s (answered ok) v = settle-IsSound ok s v

run-IsSound : (es : List Event) (s : LoginState) → IsSound s → IsSound (run s es)
unfolding run
run-IsSound [] s v = v
run-IsSound (e ∷ es) s v = run-IsSound es (handle s e) (handle-IsSound s e v)

-- From the opened form on, whatever the user types and submits and the server answers: the form is
-- busy exactly while a request is in flight or after the login; there is one of these at most, the
-- form shows no failure then, and no empty password has been sent.
run-opened-IsSound : (es : List Event) → IsSound (run opened es)
run-opened-IsSound es = run-IsSound es opened (refl, λ e. refl, tt)
