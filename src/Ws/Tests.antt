-- ===== src/Ws/Tests.antt =====
-- Runs of ws.ts, and its theorems at them.
use oh_my_terminal.Base.{
  ℕ, suc, ◌≡◌, ◌≢◌, Option, none, some, List, [], ◌∷◌, Bool, true, false, refl, ◌==◌, not,
  ℕ_discrete,
}
use oh_my_terminal.Ws.{
  fire, on_open, handle_close, is_closed, is_open, closing, Conn, retry, ping_tick, pong_check,
  Event, opens, closes, fires, receives, parsed, shows, find_timer, tick, step, run, connect, close,
  sent, ping, retries,
}
use oh_my_terminal.Ws.Timers.{count_retry}
use oh_my_terminal.Ws.Invariant.{IsSound, is_live}
use oh_my_terminal.Ws.Runs.{run-IsSound, connect-IsSound, run-connect-IsSound}
use oh_my_terminal.Ws.Endings.{count_sent, run-close, run-veto}
use oh_my_terminal.Ws.Recovery.{IsConnecting, pong, closes-reconnects, tick-ping}

-- No attempt is made after a normal closure.
abbrev unless_clean : Option (ℕ → Bool)
unless_clean = some (λ code. not (code == 1000))

-- The first socket is open, then lost, and the first attempt makes a second one.
abbrev lost_once : List (Event ℕ)
lost_once = opens 0 ∷ closes 0 1006 ∷ fires 2 ∷ []

abbrev opened : Conn ℕ
opened = run unless_clean connect (opens 0 ∷ [])

lost_once-socket : (run unless_clean (connect {R = ℕ}) lost_once).socket ≡ some 1
unfolding run step connect ℕ_discrete fire find_timer on_open handle_close
lost_once-socket = refl

opened-IsSound : IsSound opened
opened-IsSound = run-IsSound unless_clean connect (opens 0 ∷ []) (connect-IsSound ℕ)

opened-closed : opened.closed ≡ false
unfolding run step connect ℕ_discrete fire find_timer on_open handle_close
opened-closed = refl

opened-ready : (opened.sockets 0).ready ≡ is_open
unfolding run step connect ℕ_discrete fire find_timer on_open handle_close
opened-ready = refl

opened-not_ready_closed : (opened.sockets 0).ready ≢ is_closed
opened-not_ready_closed e = absurd (cc (e, opened-ready))

opened-on_close : (opened.sockets 0).on_close ≡ true
unfolding run step connect ℕ_discrete fire find_timer on_open handle_close
opened-on_close = refl

opened-listens : (opened.sockets 0).listens ≡ true
unfolding run step connect ℕ_discrete fire find_timer on_open handle_close
opened-listens = refl

opened-awaiting_pong : opened.awaiting_pong ≡ false
unfolding run step connect ℕ_discrete fire find_timer on_open handle_close
opened-awaiting_pong = refl

-- The connection between a loss and the next attempt.
abbrev waiting : Conn ℕ
waiting = run unless_clean connect (opens 0 ∷ closes 0 1006 ∷ [])

waiting-IsSound : IsSound waiting
waiting-IsSound =
    run-IsSound unless_clean connect (opens 0 ∷ closes 0 1006 ∷ []) (connect-IsSound ℕ)

waiting-watches : waiting.watches ≡ true
unfolding run step connect ℕ_discrete fire find_timer on_open handle_close
waiting-watches = refl

waiting-closed : waiting.closed ≡ false
unfolding run step connect ℕ_discrete fire find_timer on_open handle_close
waiting-closed = refl

waiting-reconnect_vetoed : waiting.reconnect_vetoed ≡ false
unfolding run step connect ℕ_discrete fire find_timer on_open handle_close
waiting-reconnect_vetoed = refl

waiting-socket : waiting.socket ≡ some 0
unfolding run step connect ℕ_discrete fire find_timer on_open handle_close
waiting-socket = refl

waiting-ready : (waiting.sockets 0).ready ≡ is_closed
unfolding run step connect ℕ_discrete fire find_timer on_open handle_close
waiting-ready = refl

waiting-not_open : (i : ℕ) → waiting.socket ≡ some i → (waiting.sockets i).ready ≢ is_open
waiting-not_open i e o = absurd (cc (waiting-socket, waiting-ready, e, o))

unless_clean-normal : retries unless_clean 1000 ≡ false
unless_clean-normal = refl

run-connect-IsSound_example : IsSound (run unless_clean (connect {R = ℕ}) lost_once)
run-connect-IsSound_example = run-connect-IsSound unless_clean lost_once

run-close_example :
    let t = run unless_clean (close opened) (closes 0 1006 ∷ fires 2 ∷ shows ∷ []) in
    (t.created ≡ opened.created)
    × (count_sent t.outputs ≡ count_sent opened.outputs)
    × (t.socket ≡ none)
    × ((i : ℕ) → is_live (t.sockets i).ready ≡ false)
run-close_example =
    run-close unless_clean opened (closes 0 1006 ∷ fires 2 ∷ shows ∷ []) opened-IsSound

run-veto_example :
    let t = run unless_clean (step unless_clean opened (closes 0 1000)) (shows ∷ fires 2 ∷ []) in
    (t.created ≡ opened.created) × (count_retry t.timers ≡ 0)
run-veto_example =
    run-veto unless_clean opened 0 1000 (shows ∷ fires 2 ∷ []) opened-IsSound
      opened-not_ready_closed opened-on_close opened-closed refl

closes-reconnects_example :
    let t = step unless_clean opened (closes 0 1006) in
    (t.attempt ≡ suc opened.attempt)
    × (find_timer t.retry_timer t.timers ≡ some retry)
    × IsConnecting opened.created (step unless_clean t (fires t.retry_timer))
closes-reconnects_example =
    closes-reconnects unless_clean opened 0 1006 opened-not_ready_closed opened-on_close
      opened-closed refl

tick-ping_example :
    let t = tick 0 opened in
    let answered = step unless_clean t (receives 0 (parsed pong)) in
    (t.outputs ≡ sent 0 ping ∷ opened.outputs)
    × (find_timer t.ping_timer t.timers ≡ some (ping_tick 0))
    × (find_timer t.pong_timer t.timers ≡ some (pong_check 0))
    × (((step unless_clean t (fires t.pong_timer)).sockets 0).ready ≡ closing)
    × (((tick 0 t).sockets 0).ready ≡ closing)
    × ((answered.sockets 0).ready ≡ is_open)
    × (answered.awaiting_pong ≡ false)
    × (find_timer t.pong_timer answered.timers ≡ none)
    × (((tick 0 answered).sockets 0).ready ≡ is_open)
tick-ping_example =
    tick-ping unless_clean opened 0 opened-closed opened-ready opened-listens opened-awaiting_pong
