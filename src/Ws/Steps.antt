-- ===== src/Ws/Steps.antt =====
-- Each handler of a connection keeps the invariant.
use oh_my_terminal.Base.{
  ℕ, ◌≡◌, ◌≢◌, inl, inr, Option, none, some, List, Bool, true, false, arith, refl, sym, ◌∙◌, subst,
  Bool-cases, if_intro, eq_of_some, not, ◌||◌,
}
use oh_my_terminal.Ws.{
  ReadyState, connecting, is_closed, Timer, Conn, put, without, detach, open_new, set_retry,
  open_socket, clear_timers, schedule_reconnect, veto, after_close, start_heartbeat, tick,
  check_pong, is_pong, on_open, on_message, binary, malformed, parsed, Incoming, retries, reopen,
  on_socket, on_visibility, release, close, with_ready, is_ready_open, is_ready_closed,
}
use oh_my_terminal.Ws.Timers.{count_retry, count_retry-without_self, RetriesAre-none}
use oh_my_terminal.Ws.Invariant.{is_live, Core, IsSound, Core-without, Core-set, Core-close}

module _ {R : Type 0} (s : Conn R) (k : IsSound s) where
  pub clear_timers-IsSound : IsSound (clear_timers s)
  unfolding clear_timers
  clear_timers-IsSound = Core-without (Core-without k s.ping_timer) s.pong_timer

  -- A new socket, when no attempt is pending.
  detached :
      (o : Option ℕ)
      → s.socket ≡ o
      → s.closed ≡ false
      → s.reconnect_vetoed ≡ false
      → count_retry s.timers ≡ 0
      → Core
          (some s.created)
          s.closed
          s.reconnect_vetoed
          s.watches
          s.retry_timer
          (put
            (detach o s.sockets)
            s.created
            (record { ready = connecting; listens = true; on_close = true }))
          s.timers
  unfolding detach
  detached none h c b e = record {
    live = λ j l. ground (arith, k.live j);
    owned = λ j l. ground (arith, k.owned j);
    ids = k.ids;
    one_retry = k.one_retry;
    waits = inl e;
    ended = λ x. absurd (cc);
    terminal = λ x. e;
    settled = λ x. absurd (cc);
  }
  detached (some p) h c b e = record {
    live = λ j l. ground (arith, k.live j);
    owned = λ j l. ground (arith, k.owned j);
    ids = k.ids;
    one_retry = k.one_retry;
    waits = inl e;
    ended = λ x. absurd (cc);
    terminal = λ x. e;
    settled = λ x. absurd (cc);
  }

  pub open_new-IsSound :
      s.closed ≡ false
      → s.reconnect_vetoed ≡ false
      → count_retry s.timers ≡ 0
      → IsSound (open_new s)
  unfolding open_new
  open_new-IsSound c b e = detached s.socket refl c b e

  pub open_socket-IsSound :
      s.reconnect_vetoed ≡ false → count_retry s.timers ≡ 0 → IsSound (open_socket s)
  unfolding open_socket
  open_socket-IsSound b e =
      if_intro IsSound s.closed s (open_new s) (λ _. k) (λ c. open_new-IsSound c b e)

  start_heartbeat-IsSound : (ws : ℕ) → IsSound (start_heartbeat ws s)
  unfolding start_heartbeat
  start_heartbeat-IsSound ws = Core-set clear_timers-IsSound _ refl

  pub tick-IsSound : (ws : ℕ) → IsSound (tick ws s)
  unfolding tick
  tick-IsSound ws = elim (Bool-cases (s.closed || not (is_ready_open (s.sockets ws).ready))) [
    | inl e ↦ rw e k
    | inr e ↦ elim (Bool-cases s.awaiting_pong) [
      | inl a ↦ rw (e, a) (Core-close k ws)
      | inr a ↦ rw (e, a) (Core-set (Core-set k _ refl) _ refl)
    ]
  ]

  pub check_pong-IsSound : (ws : ℕ) → IsSound (check_pong ws s)
  unfolding check_pong
  check_pong-IsSound ws = elim (Bool-cases s.awaiting_pong) [
    | inl a ↦ rw a (Core-close k ws)
    | inr a ↦ rw a k
  ]

  pub on_open-IsSound : (ws : ℕ) → IsSound (on_open ws s)
  unfolding on_open start_heartbeat
  on_open-IsSound ws = Core-set (Core-without (Core-without k s.ping_timer) s.pong_timer) _ refl

  pub on_message-IsSound : (x : Incoming R) → IsSound (on_message x s)
  unfolding on_message
  on_message-IsSound binary = k
  on_message-IsSound malformed = k
  on_message-IsSound (parsed m) = elim (Bool-cases (is_pong m)) [
    | inl e ↦ rw e (Core-without k s.pong_timer)
    | inr e ↦ rw e k
  ]

  released_live :
      (o : Option ℕ)
      → s.socket ≡ o
      → (j : ℕ) → is_live (release o s.sockets j).ready ≡ true
      → ◌≡◌ {A = Option ℕ} none (some j)
  unfolding release
  released_live none h j l = ground (arith, k.live j)
  released_live (some p) h j l = ground (arith, k.live j)

  released_owned :
      (o : Option ℕ)
      → s.socket ≡ o
      → (j : ℕ) → (release o s.sockets j).on_close ≡ true
      → ◌≡◌ {A = Option ℕ} none (some j)
  unfolding release
  released_owned none h j l = ground (arith, k.owned j)
  released_owned (some p) h j l = ground (arith, k.owned j)

  released :
      (o : Option ℕ)
      → s.socket ≡ o
      → (us : List Timer) → count_retry us ≡ 0
      → Core none true s.reconnect_vetoed false s.retry_timer (release o s.sockets) us
  unfolding release
  released o h us e = record {
    live = released_live o h;
    owned = released_owned o h;
    ids = RetriesAre-none s.retry_timer us e;
    one_retry = omega arith;
    waits = inl e;
    ended = λ x. (refl, e, refl);
    terminal = λ x. e;
    settled = λ x i j. absurd (cc);
  }

  pub close-IsSound : IsSound (close s)
  unfolding close clear_timers
  close-IsSound = released s.socket refl _ (
      count_retry-without_self s.retry_timer _
        (Core-without (Core-without k s.ping_timer) s.pong_timer).ids)

  pub set_retry-IsSound :
      s.closed ≡ false
      → s.reconnect_vetoed ≡ false
      → count_retry s.timers ≡ 0
      → (i : ℕ) → s.socket ≡ some i
      → (s.sockets i).ready ≡ is_closed
      → IsSound (set_retry s)
  unfolding set_retry count_retry
  set_retry-IsSound c h e i o r = record {
    live = k.live;
    owned = k.owned;
    ids = (λ _. refl, RetriesAre-none s.next_timer s.timers e);
    one_retry = omega arith;
    waits = inr (i, o, r);
    ended = λ x. absurd (cc);
    terminal = λ x. absurd (cc);
    settled = λ x. absurd (cc);
  }

module _ {R : Type 0} (s : Conn R) (k : IsSound s) where
  pub reopen-IsSound : s.reconnect_vetoed ≡ false → IsSound (reopen s)
  unfolding reopen
  reopen-IsSound b =
      open_socket-IsSound (record s { timers = without s.retry_timer s.timers; attempt = 0 })
        (Core-without k s.retry_timer) b (count_retry-without_self s.retry_timer s.timers k.ids)

  on_socket-IsSound : (o : Option ℕ) → s.reconnect_vetoed ≡ false → IsSound (on_socket o s)
  unfolding on_socket
  on_socket-IsSound none h = reopen-IsSound h
  on_socket-IsSound (some ws) h =
      if_intro IsSound (is_ready_open (s.sockets ws).ready) s (reopen s) (λ _. k)
        (λ _. reopen-IsSound h)

  pub on_visibility-IsSound : IsSound (on_visibility s)
  unfolding on_visibility
  on_visibility-IsSound =
      if_intro IsSound (s.closed || s.reconnect_vetoed) s (on_socket s.socket s) (λ _. k)
        (λ e. on_socket-IsSound s.socket (ground arith))

  -- The close event of the current socket.
  pub closed_now :
      (ws : ℕ)
      → (s.sockets ws).on_close ≡ true
      → is_ready_closed (s.sockets ws).ready ≡ false
      → (s.socket ≡ some ws) × (count_retry s.timers ≡ 0) × (s.reconnect_vetoed ≡ false)
  closed_now ws o r = (k.owned ws o, none_waits, not_vetoed)
    where
      none_waits : count_retry s.timers ≡ 0
      none_waits = elim k.waits [
        | inl e ↦ e
        | inr (i, h, c) ↦
            let same : i ≡ ws = eq_of_some (sym h ∙ k.owned ws o) in
            absurd (ground (arith, subst (λ j. (s.sockets j).ready ≡ is_closed) same c))
      ]

      not_vetoed : s.reconnect_vetoed ≡ false
      not_vetoed = ground (arith, λ (e : s.reconnect_vetoed ≡ true). k.settled e ws (k.owned ws o))

  pub with_ready-IsSound :
      (ws : ℕ) (r : ReadyState)
      → (is_live r ≡ true → is_live (s.sockets ws).ready ≡ true)
      → ((s.sockets ws).ready ≢ is_closed)
      → IsSound (with_ready ws r s)
  with_ready-IsSound ws r l c = record {
    live = λ j e. ground (arith, k.live j, l);
    owned = λ j e. ground (arith, k.owned j);
    ids = k.ids;
    one_retry = k.one_retry;
    waits = elim k.waits [ inl e ↦ inl e | inr (i, h, d) ↦ inr (i, h, ground arith) ];
    ended = k.ended;
    terminal = k.terminal;
    settled = λ e i h. ground (arith, k.settled e i h);
  }

module _ {R : Type 0} (reconnect : Option (ℕ → Bool)) (s : Conn R) (k : IsSound s) where
  pub veto-IsSound :
      (ws : ℕ)
      → s.socket ≡ some ws
      → (s.sockets ws).ready ≡ is_closed
      → s.closed ≡ false
      → IsSound (veto s)
  unfolding veto
  veto-IsSound ws o c h =
      let z = count_retry-without_self s.retry_timer s.timers k.ids in
      let w = Core-without k s.retry_timer in
      record {
        live = w.live;
        owned = w.owned;
        ids = w.ids;
        one_retry = w.one_retry;
        waits = w.waits;
        ended = w.ended;
        terminal = λ _. z;
        settled = λ _ i e. subst (λ j. (s.sockets j).ready ≡ is_closed) (eq_of_some (sym o ∙ e)) c;
      }

  pub after_close-IsSound :
      (ws code : ℕ)
      → s.socket ≡ some ws
      → (s.sockets ws).ready ≡ is_closed
      → count_retry s.timers ≡ 0
      → s.reconnect_vetoed ≡ false
      → IsSound (after_close reconnect code s)
  unfolding after_close schedule_reconnect
  after_close-IsSound ws code o c e b =
      if_intro IsSound s.closed s _ (λ _. k)
        λ h.
          if_intro IsSound (not (retries reconnect code)) (veto s) _ (λ _. veto-IsSound ws o c h)
            λ _.
              if_intro IsSound s.closed s (set_retry s) (λ _. k)
                λ _. set_retry-IsSound s k h b e ws o c
