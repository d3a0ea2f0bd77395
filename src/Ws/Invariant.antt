-- ===== src/Ws/Invariant.antt =====
-- The invariant of a connection: one live socket at most, and one pending attempt at most.
use oh_my_terminal.Base.{
  ℕ, ◌≤◌, ◌≡◌, ◌⊎◌, inl, inr, Option, none, some, List, ◌∷◌, Bool, true, false, arith,
}
use oh_my_terminal.Ws.{
  ReadyState, connecting, is_open, closing, is_closed, Socket, Timer, Conn, put, closing_state,
  without,
}
use oh_my_terminal.Ws.Timers.{
  is_retry, count_retry, RetriesAre, count_retry-without, RetriesAre-without,
}

abbrev pub is_live : ReadyState → Bool
is_live connecting = true
is_live is_open = true
is_live closing = false
is_live is_closed = false

-- What holds of the variables and the browser's sockets and timeouts.
pub record Core (socket : Option ℕ) (closed vetoed watches : Bool) (retry_timer : ℕ)
    (sockets : ℕ → Socket) (timers : List Timer) : Type 0 where
  -- a socket that is connecting or open is the current one, and so is one with an `onclose`
  pub live : (i : ℕ) → is_live (sockets i).ready ≡ true → socket ≡ some i
  pub owned : (i : ℕ) → (sockets i).on_close ≡ true → socket ≡ some i
  -- a pending attempt is the one that `retryTimer` names, and the current socket is closed
  pub ids : RetriesAre retry_timer timers
  pub one_retry : count_retry timers ≤ 1
  pub waits :
      (count_retry timers ≡ 0) ⊎ ((i : ℕ) × (socket ≡ some i) × ((sockets i).ready ≡ is_closed))
  -- after `close` there is no socket, no attempt and no listener
  pub ended : closed ≡ true → (socket ≡ none) × (count_retry timers ≡ 0) × (watches ≡ false)
  -- after a veto there is no attempt, and the current socket is closed
  pub terminal : vetoed ≡ true → count_retry timers ≡ 0
  pub settled : vetoed ≡ true → (i : ℕ) → socket ≡ some i → (sockets i).ready ≡ is_closed

abbrev pub IsSound : {R : Type 0} → Conn R → Type 0
IsSound s = Core s.socket s.closed s.reconnect_vetoed s.watches s.retry_timer s.sockets s.timers

module _ {o : Option ℕ} {c v w : Bool} {n : ℕ} {f : ℕ → Socket} {ts : List Timer}
    (k : Core o c v w n f ts) where
  -- Fewer attempts.
  pub Core-timers :
      (us : List Timer) → RetriesAre n us → count_retry us ≤ count_retry ts → Core o c v w n f us
  Core-timers us h le = record {
    live = k.live;
    owned = k.owned;
    ids = h;
    one_retry = omega (arith, k.one_retry);
    waits = elim k.waits [ inl e ↦ inl (omega arith) | inr x ↦ inr x ];
    ended = λ e. ((k.ended e).0, omega (arith, (k.ended e).1), (k.ended e).2);
    terminal = λ e. omega (arith, k.terminal e);
    settled = k.settled;
  }

  pub Core-without : (id : ℕ) → Core o c v w n f (without id ts)
  Core-without id =
      Core-timers (without id ts) (RetriesAre-without n id ts k.ids) (count_retry-without id ts)

  -- A timeout that is no attempt.
  pub Core-set : (t : Timer) → is_retry t.callback ≡ false → Core o c v w n f (t ∷ ts)
  unfolding count_retry
  Core-set t e = Core-timers (t ∷ ts) (λ h. absurd (cc), k.ids) (ground arith)

  -- `socket.close()`
  pub Core-close :
      (i : ℕ) → Core o c v w n (put f i (record (f i) { ready = closing_state (f i).ready })) ts
  Core-close i = record {
    live = λ j e. k.live j (ground arith);
    owned = λ j e. k.owned j (ground arith);
    ids = k.ids;
    one_retry = k.one_retry;
    waits = elim k.waits [ inl e ↦ inl e | inr (j, e, r) ↦ inr (j, e, ground arith) ];
    ended = k.ended;
    terminal = k.terminal;
    settled = λ e j h. ground (arith, k.settled e j h);
  }
