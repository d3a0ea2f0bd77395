-- ===== src/Ws/Recovery.antt =====
-- A lost connection is made again, and a connection that answers no ping counts as lost.
use oh_my_terminal.Base.{
  ℕ, suc, ◌≡◌, ◌≢◌, Option, none, some, ◌∷◌, Bool, true, false, arith, refl, sym, subst, ◌∙◌,
}
use oh_my_terminal.Json.{Json, string, obj, field, end, get_field}
use oh_my_terminal.Ws.{
  is_closed, is_open, connecting, closing, Conn, retry, ping_tick, pong_check, find_timer, without,
  open_socket, open_new, clear_timers, schedule_reconnect, set_retry, tick, check_pong, on_message,
  parsed, is_pong, type_is, ping, sent, retries, after_close, handle_close, reopen, on_socket,
  on_visibility, run_callback, fire, closes, fires, receives, shows, step,
}
use oh_my_terminal.Ws.Timers.{count_retry, count_retry-without_self, find_timer-without}
use oh_my_terminal.Ws.Invariant.{IsSound}

-- The state has a new current socket, number `i`, that is connecting.
abbrev pub IsConnecting : {R : Type 0} → ℕ → Conn R → Type 0
IsConnecting i t =
    (t.socket ≡ some i)
    × (t.created ≡ suc i)
    × ((t.sockets i).ready ≡ connecting)
    × ((t.sockets i).listens ≡ true)
    × ((t.sockets i).on_close ≡ true)

-- The message that answers a ping.
abbrev pub pong : {R : Type 0} → Json R
pong = obj (field "type" (string "pong") end)

module _ {R : Type 0} (reconnect : Option (ℕ → Bool)) (s : Conn R) where
  open_socket-IsConnecting : s.closed ≡ false → IsConnecting s.created (open_socket s)
  unfolding open_socket open_new
  open_socket-IsConnecting c = ground arith

  find_timer-set_retry : find_timer (set_retry s).retry_timer (set_retry s).timers ≡ some retry
  unfolding set_retry find_timer
  find_timer-set_retry = ground arith

  reopen-IsConnecting :
      IsSound s
      → s.closed ≡ false
      → IsConnecting s.created (reopen s)
        × ((reopen s).attempt ≡ 0)
        × (count_retry (reopen s).timers ≡ 0)
  unfolding reopen open_socket open_new
  reopen-IsConnecting k c = ground (arith, count_retry-without_self s.retry_timer s.timers k.ids)

  on_socket-reopens :
      (o : Option ℕ)
      → ((i : ℕ) → o ≡ some i → (s.sockets i).ready ≢ is_open)
      → on_socket o s ≡ reopen s
  unfolding on_socket
  on_socket-reopens none n = refl
  on_socket-reopens (some i) n = ground (arith, n i refl)

module _ {R : Type 0} (reconnect : Option (ℕ → Bool)) (s : Conn R) where
  fire-IsConnecting :
      (id : ℕ)
      → s.closed ≡ false
      → find_timer id s.timers ≡ some retry
      → IsConnecting s.created (step reconnect s (fires id))
  unfolding step fire run_callback
  fire-IsConnecting id c e =
      rw e (open_socket-IsConnecting none (record s { timers = without id s.timers }) c)

module _ {R : Type 0} (reconnect : Option (ℕ → Bool)) (s : Conn R) where
  lost_now :
      (ws code : ℕ)
      → (s.sockets ws).ready ≢ is_closed
      → (s.sockets ws).on_close ≡ true
      → s.closed ≡ false
      → retries reconnect code ≡ true
      → let t = step reconnect s (closes ws code) in
        (t.closed ≡ false)
        × (t.created ≡ s.created)
        × (t.attempt ≡ suc s.attempt)
        × (find_timer t.retry_timer t.timers ≡ some retry)
  unfolding step handle_close after_close clear_timers schedule_reconnect set_retry find_timer
  lost_now ws code r o c e = ground arith

  -- When a socket that has its `onclose` closes, the owner has not closed the connection and the
  -- code is one to retry on, then one more attempt is counted and an attempt is pending; when its
  -- timeout fires, a new socket that has all handlers is connecting.
  pub closes-reconnects :
      (ws code : ℕ)
      → (s.sockets ws).ready ≢ is_closed
      → (s.sockets ws).on_close ≡ true
      → s.closed ≡ false
      → retries reconnect code ≡ true
      → let t = step reconnect s (closes ws code) in
        (t.attempt ≡ suc s.attempt)
        × (find_timer t.retry_timer t.timers ≡ some retry)
        × IsConnecting s.created (step reconnect t (fires t.retry_timer))
  closes-reconnects ws code r o c e =
      let t = step reconnect s (closes ws code) in
      let (live, same, tried, waits) = lost_now ws code r o c e in
      (
        tried,
        waits,
        subst (λ n. IsConnecting n (step reconnect t (fires t.retry_timer))) same
            (fire-IsConnecting reconnect t t.retry_timer live waits),
      )

  shows_now :
      s.watches ≡ true
      → s.closed ≡ false
      → s.reconnect_vetoed ≡ false
      → step reconnect s shows ≡ on_socket s.socket s
  unfolding step on_visibility
  shows_now w c v = ground arith

  -- When the page is shown and the connection is neither closed nor vetoed, and has no open socket,
  -- it tries again at once: a new socket is connecting, the delays start over and no attempt is
  -- pending.
  shows-reconnects :
      IsSound s
      → s.watches ≡ true
      → s.closed ≡ false
      → s.reconnect_vetoed ≡ false
      → ((i : ℕ) → s.socket ≡ some i → (s.sockets i).ready ≢ is_open)
      → let t = step reconnect s shows in
        IsConnecting s.created t × (t.attempt ≡ 0) × (count_retry t.timers ≡ 0)
  shows-reconnects k w c v n =
      let same = shows_now w c v ∙ on_socket-reopens none s s.socket n in
      subst (λ t. IsConnecting s.created t × (t.attempt ≡ 0) × (count_retry t.timers ≡ 0))
        (sym same) (reopen-IsConnecting none s k c)

  -- A tick on an open socket that owes no answer sends a ping and sets both timeouts. If the pong
  -- timeout fires, or the next tick comes, before an answer, the socket is closed; a pong that
  -- arrives first clears the timeout, and then the next tick leaves the socket open.
  pub tick-ping :
      (ws : ℕ)
      → s.closed ≡ false
      → (s.sockets ws).ready ≡ is_open
      → (s.sockets ws).listens ≡ true
      → s.awaiting_pong ≡ false
      → let t = tick ws s in
        let answered = step reconnect t (receives ws (parsed pong)) in
        (t.outputs ≡ sent ws ping ∷ s.outputs)
        × (find_timer t.ping_timer t.timers ≡ some (ping_tick ws))
        × (find_timer t.pong_timer t.timers ≡ some (pong_check ws))
        × (((step reconnect t (fires t.pong_timer)).sockets ws).ready ≡ closing)
        × (((tick ws t).sockets ws).ready ≡ closing)
        × ((answered.sockets ws).ready ≡ is_open)
        × (answered.awaiting_pong ≡ false)
        × (find_timer t.pong_timer answered.timers ≡ none)
        × (((tick ws answered).sockets ws).ready ≡ is_open)
  unfolding step tick fire check_pong run_callback find_timer on_message is_pong type_is get_field
      without
  tick-ping ws c o l a = ground (arith, find_timer-without s.next_timer s.timers)
