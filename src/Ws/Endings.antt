-- ===== src/Ws/Endings.antt =====
-- `close` and a veto end a connection: nothing that happens later opens a socket.
use oh_my_terminal.Base.{
  ℕ, ◌+◌, ◌≡◌, Option, none, some, List, [], ◌∷◌, Bool, true, false, arith, refl, ◌∙◌, inl, inr,
  Bool-cases, subst, ◌≢◌,
}
use oh_my_terminal.Json.{Json}
use oh_my_terminal.Ws.{
  is_closed, Conn, Callback, retry, ping_tick, pong_check, find_timer, open_socket, clear_timers,
  schedule_reconnect, set_retry, start_heartbeat, tick, check_pong, on_open, on_message, Incoming,
  binary, malformed, parsed, Output, sent, retries, without, with_ready, veto, after_close,
  handle_close, on_visibility, send_on, send, close, run_callback, fire, Event, opens, errs,
  receives, closes, fires, shows, sends, ends, step, run,
}
use oh_my_terminal.Ws.Timers.{count_retry, find_timer-retry}
use oh_my_terminal.Ws.Invariant.{IsSound, is_live}
use oh_my_terminal.Ws.Runs.{step-IsSound, run-IsSound}
use oh_my_terminal.Ws.Steps.{close-IsSound}

abbrev sent_of : {R : Type 0} → Output R → ℕ
sent_of (sent _ _) = 1
sent_of _ = 0

-- How often something was sent.
unfoldable pub count_sent : {R : Type 0} → List (Output R) → ℕ
count_sent [] = 0
count_sent (o ∷ os) = sent_of o + count_sent os

-- As many sockets and as much sent as before, and still closed and without a socket.
abbrev Ended : {R : Type 0} → Conn R → Conn R → Type 0
Ended s t =
    (t.closed ≡ true)
    × (t.socket ≡ none)
    × (t.created ≡ s.created)
    × (count_sent t.outputs ≡ count_sent s.outputs)

module _ {R : Type 0} (reconnect : Option (ℕ → Bool)) (s : Conn R) (c : s.closed ≡ true)
    (o : s.socket ≡ none) where
  handle_close-Ended : (code : ℕ) → Ended s (handle_close reconnect code s)
  unfolding handle_close after_close clear_timers count_sent
  handle_close-Ended code = ground arith

  run_callback-Ended : (k : Callback) → Ended s (run_callback k s)
  unfolding run_callback open_socket tick check_pong
  run_callback-Ended retry = ground arith
  run_callback-Ended (ping_tick ws) = ground arith
  run_callback-Ended (pong_check ws) = ground arith

  on_visibility-Ended : Ended s (on_visibility s)
  unfolding on_visibility
  on_visibility-Ended = ground arith

  on_message-Ended : (x : Incoming R) → Ended s (on_message x s)
  unfolding on_message count_sent
  on_message-Ended binary = ground arith
  on_message-Ended malformed = ground arith
  on_message-Ended (parsed m) = ground arith

fire-Ended :
    {R : Type 0} (s : Conn R)
    → s.closed ≡ true
    → s.socket ≡ none
    → (o : Option Callback) (id : ℕ) → Ended s (fire o id s)
unfolding fire
fire-Ended s c n none id = (c, n, refl, refl)
fire-Ended s c n (some k) id =
    run_callback-Ended none (record s { timers = without id s.timers }) c n k

send-Ended :
    {R : Type 0} (o : Option ℕ) (msg : Json R) (s : Conn R)
    → s.closed ≡ true
    → s.socket ≡ none
    → o ≡ none
    → Ended s (send_on o msg s).0
unfolding send_on
send-Ended none msg s c n e = (c, n, refl, refl)
send-Ended (some ws) msg s c n e = absurd (cc e)

module _ {R : Type 0} (reconnect : Option (ℕ → Bool)) where
  step-Ended :
      (s : Conn R) (e : Event R) → s.closed ≡ true → s.socket ≡ none → Ended s (step reconnect s e)
  unfolding step on_open start_heartbeat clear_timers close send count_sent
  step-Ended s (opens ws) c n = ground arith
  step-Ended s (errs ws) c n = ground arith
  step-Ended s (receives ws x) c n = ground (arith, on_message-Ended reconnect s c n x)
  step-Ended s (closes ws code) c n =
      ground (arith, handle_close-Ended reconnect (with_ready ws is_closed s) c n code)
  step-Ended s (fires id) c n = fire-Ended s c n (find_timer id s.timers) id
  step-Ended s shows c n = ground (arith, on_visibility-Ended reconnect s c n)
  step-Ended s (sends msg) c n = send-Ended s.socket msg s c n n
  step-Ended s ends c n = ground arith

  run-Ended :
      (s : Conn R) (es : List (Event R))
      → s.closed ≡ true
      → s.socket ≡ none
      → Ended s (run reconnect s es)
  unfolding run
  run-Ended s [] c n = (c, n, refl, refl)
  run-Ended s (e ∷ es) c n =
      let (c', n', made, out) = step-Ended s e c n in
      let (c″, n″, made', out') = run-Ended (step reconnect s e) es c' n' in
      (c″, n″, made' ∙ made, out' ∙ out)

  close-closed : (s : Conn R) → Ended s (close s)
  unfolding close clear_timers
  close-closed s = (refl, refl, refl, refl)

module _ {R : Type 0} (s : Conn R) (none_now : s.socket ≡ none) where
  no_socket-dead : IsSound s → (i : ℕ) → is_live (s.sockets i).ready ≡ false
  no_socket-dead k i = elim (Bool-cases (is_live (s.sockets i).ready)) [
    | inl e ↦ (let x = k.live i e in absurd (cc))
    | inr e ↦ e
  ]

module _ {R : Type 0} (reconnect : Option (ℕ → Bool)) where
  -- Once the owner has closed a connection, then from the call on, whatever happens: no socket is
  -- opened and nothing is sent, there is no current socket, and none is connecting or open.
  pub run-close :
      (s : Conn R) (es : List (Event R))
      → IsSound s
      → let t = run reconnect (close s) es in
        (t.created ≡ s.created)
        × (count_sent t.outputs ≡ count_sent s.outputs)
        × (t.socket ≡ none)
        × ((i : ℕ) → is_live (t.sockets i).ready ≡ false)
  run-close s es k =
      let (c, n, made, out) = close-closed reconnect s in
      let (_, gone, made', out') = run-Ended reconnect (close s) es c n in
      let w = run-IsSound reconnect (close s) es (close-IsSound s k) in
      (made' ∙ made, out' ∙ out, gone, no_socket-dead (run reconnect (close s) es) gone w)

-- No attempt to reconnect will be made on its own.
abbrev Vetoed : {R : Type 0} → Conn R → Conn R → Type 0
Vetoed s t = (t.reconnect_vetoed ≡ true) × (t.created ≡ s.created)

module _ {R : Type 0} (s : Conn R) (v : s.reconnect_vetoed ≡ true) where
  run_callback-Vetoed : (k : Callback) → k ≢ retry → Vetoed s (run_callback k s)
  unfolding run_callback tick check_pong
  run_callback-Vetoed retry ne = absurd (ne refl)
  run_callback-Vetoed (ping_tick ws) ne = ground arith
  run_callback-Vetoed (pong_check ws) ne = ground arith

  on_message-Vetoed : (x : Incoming R) → Vetoed s (on_message x s)
  unfolding on_message
  on_message-Vetoed binary = ground arith
  on_message-Vetoed malformed = ground arith
  on_message-Vetoed (parsed m) = ground arith

  on_visibility-Vetoed : Vetoed s (on_visibility s)
  unfolding on_visibility
  on_visibility-Vetoed = ground arith

  send-Vetoed : (o : Option ℕ) (msg : Json R) → Vetoed s (send_on o msg s).0
  unfolding send_on
  send-Vetoed none msg = ground arith
  send-Vetoed (some ws) msg = ground arith

no_retry :
    {R : Type 0} (s : Conn R)
    → IsSound s
    → s.reconnect_vetoed ≡ true
    → (id : ℕ) → find_timer id s.timers ≢ some retry
no_retry s k v id e =
    omega (arith, k.terminal v, (find_timer-retry s.retry_timer id s.timers k.ids e).1)

fire-Vetoed :
    {R : Type 0} (s : Conn R)
    → IsSound s
    → s.reconnect_vetoed ≡ true
    → (o : Option Callback) (id : ℕ) → find_timer id s.timers ≡ o
    → Vetoed s (fire o id s)
unfolding fire
fire-Vetoed s k v none id e = (v, refl)
fire-Vetoed s k v (some c) id e =
    run_callback-Vetoed (record s { timers = without id s.timers }) v c
      λ r. no_retry s k v id (subst (λ x. find_timer id s.timers ≡ some x) r e)

module _ {R : Type 0} (reconnect : Option (ℕ → Bool)) where
  step-Vetoed :
      (s : Conn R) (e : Event R)
      → IsSound s
      → s.reconnect_vetoed ≡ true
      → Vetoed s (step reconnect s e)
  unfolding step on_open start_heartbeat clear_timers close send handle_close after_close veto
      schedule_reconnect set_retry
  step-Vetoed s (opens ws) k v = ground arith
  step-Vetoed s (errs ws) k v = ground arith
  step-Vetoed s (receives ws x) k v = ground (arith, on_message-Vetoed s v x)
  step-Vetoed s (closes ws code) k v = ground arith
  step-Vetoed s (fires id) k v = fire-Vetoed s k v (find_timer id s.timers) id refl
  step-Vetoed s shows k v = ground (arith, on_visibility-Vetoed s v)
  step-Vetoed s (sends msg) k v = send-Vetoed s v s.socket msg
  step-Vetoed s ends k v = ground arith

  run-Vetoed :
      (s : Conn R) (es : List (Event R))
      → IsSound s
      → s.reconnect_vetoed ≡ true
      → Vetoed s (run reconnect s es)
  unfolding run
  run-Vetoed s [] k v = (v, refl)
  run-Vetoed s (e ∷ es) k v =
      let (v', n) = step-Vetoed s e k v in
      let (v″, m) = run-Vetoed (step reconnect s e) es (step-IsSound reconnect s k e) v' in
      (v″, m ∙ n)

  vetoes-now :
      (s : Conn R) (ws code : ℕ)
      → (s.sockets ws).ready ≢ is_closed
      → (s.sockets ws).on_close ≡ true
      → s.closed ≡ false
      → retries reconnect code ≡ false
      → Vetoed s (step reconnect s (closes ws code))
  unfolding step handle_close after_close veto clear_timers
  vetoes-now s ws code r o c e = ground arith

  -- When a socket that has its `onclose` closes, on a connection that is not closed, with a code for
  -- which `options.reconnect` says no, then no socket is opened from then on, whatever happens, and
  -- no attempt is pending.
  pub run-veto :
      (s : Conn R) (ws code : ℕ) (es : List (Event R))
      → IsSound s
      → (s.sockets ws).ready ≢ is_closed
      → (s.sockets ws).on_close ≡ true
      → s.closed ≡ false
      → retries reconnect code ≡ false
      → let t = run reconnect (step reconnect s (closes ws code)) es in
        (t.created ≡ s.created) × (count_retry t.timers ≡ 0)
  run-veto s ws code es k r o c e =
      let s' = step reconnect s (closes ws code) in
      let k' = step-IsSound reconnect s k (closes ws code) in
      let (v, n) = vetoes-now s ws code r o c e in
      let (v', m) = run-Vetoed s' es k' v in (m ∙ n, (run-IsSound reconnect s' es k').terminal v')
