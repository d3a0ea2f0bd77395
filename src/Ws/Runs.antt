-- ===== src/Ws/Runs.antt =====
-- Every event keeps the invariant of a connection, so it holds after any run.
use oh_my_terminal.Base.{
  ℕ, ◌≡◌, inl, Option, none, some, List, [], ◌∷◌, Bool, true, false, arith, refl, if_intro,
}
use oh_my_terminal.Json.{Json}
use oh_my_terminal.Ws.{
  is_open, is_closed, Callback, retry, ping_tick, pong_check, Conn, without, find_timer,
  clear_timers, told_close, handle_close, send_on, send, run_callback, Event, opens, errs, receives,
  closes, fires, shows, sends, ends, with_ready, fire, step, run, connect, is_ready_connecting,
  is_ready_open, is_ready_closed,
}
use oh_my_terminal.Ws.Timers.{
  count_retry, count_retry-without, count_retry-without_self, find_timer-retry,
}
use oh_my_terminal.Ws.Steps.{
  on_open-IsSound, on_message-IsSound, open_socket-IsSound, tick-IsSound, check_pong-IsSound,
  close-IsSound, on_visibility-IsSound, closed_now, with_ready-IsSound, after_close-IsSound,
}
use oh_my_terminal.Ws.Invariant.{IsSound, Core-without}

module _ {R : Type 0} (reconnect : Option (ℕ → Bool)) (s : Conn R) (k : IsSound s) where
  handle_close-IsSound :
      (ws code : ℕ)
      → s.socket ≡ some ws
      → (s.sockets ws).ready ≡ is_closed
      → count_retry s.timers ≡ 0
      → s.reconnect_vetoed ≡ false
      → IsSound (handle_close reconnect code s)
  unfolding handle_close clear_timers
  handle_close-IsSound ws code o c e b =
      let p = Core-without k s.ping_timer in
      let q = Core-without p s.pong_timer in
      after_close-IsSound reconnect
        (record s {
          timers = without s.pong_timer (without s.ping_timer s.timers);
          awaiting_pong = false;
          outputs = told_close code ∷ s.outputs;
        })
        q ws code o c
        (omega (
          arith,
          count_retry-without s.ping_timer s.timers,
          count_retry-without s.pong_timer (without s.ping_timer s.timers),
        ))
        b

module _ {R : Type 0} (s : Conn R) (k : IsSound s) where
  run_callback-IsSound :
      (c : Callback) (id : ℕ)
      → find_timer id s.timers ≡ some c
      → IsSound (run_callback c (record s { timers = without id s.timers }))
  unfolding run_callback
  run_callback-IsSound retry id e =
      let (same, some_waits) = find_timer-retry s.retry_timer id s.timers k.ids e in
      open_socket-IsSound (record s { timers = without id s.timers }) (Core-without k id)
        (ground (arith, λ (v : s.reconnect_vetoed ≡ true). k.terminal v))
        (rw same (count_retry-without_self s.retry_timer s.timers k.ids))
  run_callback-IsSound (ping_tick ws) id e =
      tick-IsSound (record s { timers = without id s.timers }) (Core-without k id) ws
  run_callback-IsSound (pong_check ws) id e =
      check_pong-IsSound (record s { timers = without id s.timers }) (Core-without k id) ws

  fire-IsSound : (o : Option Callback) (id : ℕ) → find_timer id s.timers ≡ o → IsSound (fire o id s)
  unfolding fire
  fire-IsSound none id e = k
  fire-IsSound (some c) id e = run_callback-IsSound c id e

  send-IsSound : (o : Option ℕ) (msg : Json R) → IsSound (send_on o msg s).0
  unfolding send_on
  send-IsSound none msg = k
  send-IsSound (some ws) msg =
      if_intro (λ (x : Conn R × Bool). IsSound x.0) (is_ready_open (s.sockets ws).ready) _
        (s, false) (λ _. k) (λ _. k)

module _ {R : Type 0} (reconnect : Option (ℕ → Bool)) (s : Conn R) (k : IsSound s) where
  -- Each event keeps the invariant.
  pub step-IsSound : (e : Event R) → IsSound (step reconnect s e)
  unfolding step send
  step-IsSound (opens ws) =
      if_intro IsSound (is_ready_connecting (s.sockets ws).ready) _ s
        (λ e.
          let w = with_ready-IsSound s k ws is_open (λ _. ground arith) (λ h. ground arith) in
          if_intro IsSound (s.sockets ws).listens _ (with_ready ws is_open s)
            (λ _. on_open-IsSound (with_ready ws is_open s) w ws) (λ _. w))
        (λ _. k)
  step-IsSound (errs ws) = if_intro IsSound (s.sockets ws).listens _ s (λ _. k) (λ _. k)
  step-IsSound (receives ws x) =
      if_intro IsSound (is_ready_open (s.sockets ws).ready) _ s
        (λ _. if_intro IsSound (s.sockets ws).listens _ s (λ _. on_message-IsSound s k x) (λ _. k))
        (λ _. k)
  step-IsSound (closes ws code) =
      if_intro IsSound (is_ready_closed (s.sockets ws).ready) s _ (λ _. k)
        λ r.
          let w = with_ready-IsSound s k ws is_closed (λ x. absurd (cc)) (λ h. ground arith) in
          if_intro IsSound (s.sockets ws).on_close _ (with_ready ws is_closed s)
            (λ o.
              let (here, none_waits, not_vetoed) = closed_now s k ws o r in
              handle_close-IsSound reconnect (with_ready ws is_closed s) w ws code here
                (ground arith) none_waits not_vetoed)
            (λ _. w)
  step-IsSound (fires id) = fire-IsSound s k (find_timer id s.timers) id refl
  step-IsSound shows = if_intro IsSound s.watches _ s (λ _. on_visibility-IsSound s k) (λ _. k)
  step-IsSound (sends msg) = send-IsSound s k s.socket msg
  step-IsSound ends = close-IsSound s k

pub connect-IsSound : (R : Type 0) → IsSound (connect {R = R})
unfolding connect count_retry
connect-IsSound R = record {
  live = λ i e. ground arith;
  owned = λ i e. ground arith;
  ids = tt;
  one_retry = omega arith;
  waits = inl refl;
  ended = λ e. absurd (cc);
  terminal = λ e. absurd (cc);
  settled = λ e. absurd (cc);
}

module _ {R : Type 0} (reconnect : Option (ℕ → Bool)) where
  pub run-IsSound : (s : Conn R) (es : List (Event R)) → IsSound s → IsSound (run reconnect s es)
  unfolding run
  run-IsSound s [] k = k
  run-IsSound s (e ∷ es) k = run-IsSound (step reconnect s e) es (step-IsSound reconnect s k e)

  -- After any events, in any order: only the current socket is connecting or open, at most one
  -- attempt to reconnect is pending and only while the current socket is closed, after `close`
  -- there is no socket and no attempt, and after a veto no attempt.
  pub run-connect-IsSound : (es : List (Event R)) → IsSound (run reconnect (connect {R = R}) es)
  run-connect-IsSound es = run-IsSound connect es (connect-IsSound R)
