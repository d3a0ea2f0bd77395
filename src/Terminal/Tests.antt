-- ===== src/Terminal/Tests.antt =====
-- Runs of the terminal of a pane, and its theorems at them.
use oh_my_terminal.Base.{
  ℕ, ◌-◌, ◌≡◌, ◌≢◌, ◌↔◌, none, some, List, [], ◌∷◌, true, false, arith, refl, ℕ_discrete,
}
use oh_my_terminal.Ws
use oh_my_terminal.Ws.{Conn, find_timer, retry, connect, opens, closes, shows}
use oh_my_terminal.Ws.Invariant.{IsSound}
use oh_my_terminal.Ws.Runs.{run-connect-IsSound}
use oh_my_terminal.Terminal.{
  Box, Session, opened, composition_started, composition_ended, blurred, observed, typed,
  fit_full_width, is_malformed_mouse, min_cols, min_rows, mount, run, step, on_open, do_fit,
}
use oh_my_terminal.Terminal.Fit.{Fills, fit_full_width-Fills}
use oh_my_terminal.Terminal.Composition.{Fitted, deferred-fit, count_resize}
use oh_my_terminal.Terminal.Keys.{KeyEvent, handle_key, IsPlain, Replaced, handle_key_iff}
use oh_my_terminal.Terminal.Connection.{unless_clean}

abbrev narrow : Box
narrow = record {
  cell = some (8, 16);
  has_parent = true;
  width = 400;
  height = 300;
  pad_h = 10;
  pad_v = 10;
  addon = none;
}

narrow-grid : fit_full_width narrow (80, 24) ≡ ((48, 18), true)
unfolding fit_full_width
narrow-grid = refl

-- A text is being composed in an open terminal.
abbrev composing : Session ℕ
composing = run (mount narrow (80, 24)) (opened narrow ∷ composition_started ∷ [])

composing-mounted : composing.mounted ≡ true
unfolding run step mount on_open do_fit
composing-mounted = refl

composing-composing : composing.composing ≡ true
unfolding run step mount on_open do_fit
composing-composing = refl

-- ESC `[<65;NaN;NaNM`
abbrev inertia : List ℕ
inertia = 27 ∷ 91 ∷ 60 ∷ 54 ∷ 53 ∷ 59 ∷ 78 ∷ 97 ∷ 78 ∷ 59 ∷ 78 ∷ 97 ∷ 78 ∷ 77 ∷ []

inertia-is_malformed_mouse : is_malformed_mouse inertia ≡ true
unfolding is_malformed_mouse
inertia-is_malformed_mouse = refl

abbrev ctrl_left : KeyEvent
ctrl_left = record {
  keydown = true;
  key = "ArrowLeft";
  ctrl = true;
  meta = false;
  shift = false;
  alt = false;
  is_composing = false;
}

abbrev linked : Conn ℕ
linked = Ws.run unless_clean connect (opens 0 ∷ [])

linked-IsSound : IsSound linked
linked-IsSound = run-connect-IsSound unless_clean (opens 0 ∷ [])

linked-ready : (linked.sockets 0).ready ≡ Ws.is_open
unfolding Ws.run Ws.step connect ℕ_discrete Ws.on_open
linked-ready = refl

linked-not_closed : (linked.sockets 0).ready ≢ Ws.is_closed
linked-not_closed e = absurd (cc (e, linked-ready))

linked-on_close : (linked.sockets 0).on_close ≡ true
unfolding Ws.run Ws.step connect ℕ_discrete Ws.on_open
linked-on_close = refl

linked-closed : linked.closed ≡ false
unfolding Ws.run Ws.step connect ℕ_discrete Ws.on_open
linked-closed = refl

deferred-fit_example :
    let t = run (step composing (observed narrow)) (typed (104 ∷ []) ∷ []) in
    (t.grid ≡ composing.grid)
    × (count_resize t.outputs ≡ count_resize composing.outputs)
    × Fitted narrow composing.grid t.outputs (step t (composition_ended narrow))
    × Fitted narrow composing.grid t.outputs (step t (blurred narrow))
deferred-fit_example =
    deferred-fit composing (observed narrow) (typed (104 ∷ []) ∷ []) narrow composing-mounted
      composing-composing refl (refl, tt)

fit_full_width-Fills_example :
    let (fitted, ok) = fit_full_width narrow (80, 24) in
    (ok ≡ true) × Fills min_cols (400 - 10) 8 fitted.0 × Fills min_rows (300 - 10) 16 fitted.1
fit_full_width-Fills_example =
    fit_full_width-Fills narrow 8 16 (80, 24) refl refl (omega arith) (omega arith)

handle_key_iff_example :
    ((handle_key ctrl_left false).sent ≡ some (27 ∷ 98 ∷ []))
    ↔ (IsPlain ctrl_left false × Replaced ctrl_left (27 ∷ 98 ∷ []))
handle_key_iff_example = handle_key_iff ctrl_left false (27 ∷ 98 ∷ [])
