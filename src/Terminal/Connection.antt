-- ===== src/Terminal/Connection.antt =====
-- What the terminal shows of its connection, against what the connection does.
use oh_my_terminal.Base.{
  ℕ, ◌≡◌, ◌≢◌, ◌⊎◌, inl, inr, Option, some, List, Bool, true, false, not, refl, Bool-cases,
}
use oh_my_terminal.Ws.{Conn, Event, closes, fires, find_timer, retry, retries}
use oh_my_terminal.Ws
use oh_my_terminal.Ws.Invariant.{IsSound}
use oh_my_terminal.Ws.Endings.{run-veto}
use oh_my_terminal.Ws.Recovery.{closes-reconnects}
use oh_my_terminal.Terminal.{Session, is_closed, reconnecting, is_clean_close, on_close}

-- The option that `useTerminal` connects with.
abbrev pub unless_clean : Option (ℕ → Bool)
unless_clean = some (λ code. not (is_clean_close code))

-- When the socket of a terminal closes on a connection that is not closed, the terminal shows either
-- that it is closed, and then no socket is opened any more, whatever happens, or that it reconnects,
-- and then an attempt to reconnect is pending.
on_close-shown :
    {R Q : Type 0} (c : Conn R) (ws code : ℕ) (es : List (Event R)) (s : Session Q)
    → IsSound c
    → (c.sockets ws).ready ≢ Ws.is_closed
    → (c.sockets ws).on_close ≡ true
    → c.closed ≡ false
    → let d = Ws.step unless_clean c (closes ws code) in
      (((on_close code s).status ≡ is_closed) × ((Ws.run unless_clean d es).created ≡ c.created))
      ⊎ (((on_close code s).status ≡ reconnecting)
          × (find_timer d.retry_timer d.timers ≡ some retry))
unfolding on_close
on_close-shown c ws code es s k r o n = elim (Bool-cases (is_clean_close code)) [
  | inl e ↦ inl (rw e refl, (run-veto unless_clean c ws code es k r o n (rw e refl)).0)
  | inr e ↦ inr (rw e refl, (closes-reconnects unless_clean c ws code r o n (rw e refl)).1)
]
