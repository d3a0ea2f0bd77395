-- ===== src/Ws.antt =====
-- frontend/src/lib/ws.ts: a WebSocket that reconnects. `Conn` holds the variables of `connectWs`
-- and, below them, what the browser keeps for it: the sockets that it opened, by number, its
-- pending timeouts, and what it has sent and told its handlers, latest first. An `Event` is a call
-- of the browser or of the owner of the connection; one that cannot happen changes nothing.
pub mod Backoff
pub mod Timers
pub mod Invariant
pub mod Steps
pub mod Runs
pub mod Endings
pub mod Recovery
mod Tests
use oh_my_terminal.Base.{
  ℕ, suc, ◌*◌, ◌^◌, String, String-discrete, Option, none, some, List, [], ◌∷◌, ite, Bool, true,
  false, not, ◌||◌, if◌then◌else◌, ℕ_discrete, ◌==◌,
}
use Prim.Native.Nat.{min}
use oh_my_terminal.Json.{Json, null, bool, number, string, arr, obj, Fields, end, field, get_field}

pub data ReadyState : Type 0 where
  connecting is_open closing is_closed : ReadyState

-- A socket; `listens` says that its handlers but `onclose` are set, `on_close` that this one is.
pub record Socket : Type 0 where
  pub ready : ReadyState
  pub listens : Bool
  pub on_close : Bool

pub data Callback : Type 0 where
  retry : Callback
  ping_tick pong_check : ℕ → Callback

pub record Timer : Type 0 where
  pub id : ℕ
  pub delay : ℕ
  pub callback : Callback

-- What arrives on a socket: a binary frame, text that is no JSON, or a JSON value.
pub data Incoming (R : Type 0) : Type 0 where
  binary malformed : Incoming R
  parsed : Json R → Incoming R

pub data Output (R : Type 0) : Type 0 where
  told_open told_error : Output R
  told_message : Json R → Output R
  told_close : (code : ℕ) → Output R
  sent : (socket : ℕ) → Json R → Output R

pub record Conn (R : Type 0) : Type 0 where
  pub socket : Option ℕ
  pub closed : Bool
  pub reconnect_vetoed : Bool
  pub attempt : ℕ
  pub retry_timer : ℕ
  pub ping_timer : ℕ
  pub pong_timer : ℕ
  pub awaiting_pong : Bool
  -- the browser
  pub watches : Bool
  pub sockets : ℕ → Socket
  pub created : ℕ
  pub timers : List Timer
  pub next_timer : ℕ
  pub outputs : List (Output R)

abbrev pub ping_interval_ms : ℕ
ping_interval_ms = 20000

abbrev pub pong_timeout_ms : ℕ
pong_timeout_ms = 10000

-- `Math.min(1000 * 2 ** attempt, 10_000)`
unfoldable pub retry_delay : ℕ → ℕ
retry_delay attempt = min (1000 * 2 ^ attempt) 10000

-- The browser's part.
abbrev pub put : {A : Type 0} → (ℕ → A) → ℕ → A → ℕ → A
put f i x j = ite (ℕ_discrete j i) x (f j)

unfoldable pub without : ℕ → List Timer → List Timer
without id [] = []
without id (t ∷ ts) = ite (ℕ_discrete t.id id) (without id ts) (t ∷ without id ts)

unfoldable pub find_timer : ℕ → List Timer → Option Callback
find_timer id [] = none
find_timer id (t ∷ ts) = ite (ℕ_discrete t.id id) (some t.callback) (find_timer id ts)

abbrev pub closing_state : ReadyState → ReadyState
closing_state connecting = closing
closing_state is_open = closing
closing_state closing = closing
closing_state is_closed = is_closed

abbrev pub is_ready_open : ReadyState → Bool
is_ready_open is_open = true
is_ready_open _ = false

abbrev pub is_ready_connecting : ReadyState → Bool
is_ready_connecting connecting = true
is_ready_connecting _ = false

abbrev pub is_ready_closed : ReadyState → Bool
is_ready_closed is_closed = true
is_ready_closed _ = false

-- `socket.close()` of a numbered socket.
abbrev pub close_nth : ℕ → (ℕ → Socket) → ℕ → Socket
close_nth i f = put f i (record (f i) { ready = closing_state (f i).ready })

-- The sockets when `open` has detached and closed the one before.
unfoldable pub detach : Option ℕ → (ℕ → Socket) → ℕ → Socket
detach none f = f
detach (some prev) f =
    close_nth prev (put f prev (record (f prev) { listens = false; on_close = false }))

-- The sockets when `close` has closed the current one.
unfoldable pub release : Option ℕ → (ℕ → Socket) → ℕ → Socket
release none f = f
release (some ws) f = close_nth ws (put f ws (record (f ws) { on_close = false }))

-- `options.reconnect?.(code) ?? true`
abbrev pub retries : Option (ℕ → Bool) → ℕ → Bool
retries none code = true
retries (some f) code = f code

module _ {R : Type 0} where
  abbrev pub socket_close : ℕ → Conn R → Conn R
  socket_close i s = record s { sockets = close_nth i s.sockets }

  abbrev pub with_ready : ℕ → ReadyState → Conn R → Conn R
  with_ready ws r s =
      let k = s.sockets ws in record s { sockets = put s.sockets ws (record k { ready = r }) }

  abbrev pub clear_timeout : ℕ → Conn R → Conn R
  clear_timeout id s = record s { timers = without id s.timers }

  abbrev pub set_timeout : ℕ → Callback → Conn R → Conn R
  set_timeout delay callback s = record s {
    timers = record { id = s.next_timer; delay = delay; callback = callback } ∷ s.timers;
    next_timer = suc s.next_timer;
  }

  abbrev pub tell : Output R → Conn R → Conn R
  tell o s = record s { outputs = o ∷ s.outputs }

  -- `connectWs`
  unfoldable pub clear_timers : Conn R → Conn R
  clear_timers s =
      let s' = clear_timeout s.pong_timer (clear_timeout s.ping_timer s) in
      record s' { awaiting_pong = false }

  unfoldable pub set_retry : Conn R → Conn R
  set_retry s =
      let t = set_timeout (retry_delay s.attempt) retry s in
      record t { attempt = suc s.attempt; retry_timer = s.next_timer }

  unfoldable pub schedule_reconnect : Conn R → Conn R
  unfolding set_retry
  schedule_reconnect s = if s.closed then s else set_retry s

  -- The part of `open` behind its guard; `new WebSocket` makes the socket.
  unfoldable pub open_new : Conn R → Conn R
  unfolding detach
  open_new s = record s {
    sockets =
        put (detach s.socket s.sockets) s.created
          (record { ready = connecting; listens = true; on_close = true });
    created = suc s.created;
    socket = some s.created;
  }

  unfoldable pub open_socket : Conn R → Conn R
  unfolding open_new
  open_socket s = if s.closed then s else open_new s

  unfoldable pub start_heartbeat : ℕ → Conn R → Conn R
  unfolding clear_timers
  start_heartbeat ws s =
      let c = clear_timers s in
      let s' = set_timeout ping_interval_ms (ping_tick ws) c in
      record s' { ping_timer = c.next_timer }

  abbrev pub ping : Json R
  ping = obj (field "type" (string "ping") end)

  unfoldable pub tick : ℕ → Conn R → Conn R
  tick ws s =
      if s.closed || not (is_ready_open (s.sockets ws).ready)
      then s
      else if s.awaiting_pong
      then socket_close ws s
      else (let asked = tell (sent ws ping) (record s { awaiting_pong = true }) in
          let timed = set_timeout pong_timeout_ms (pong_check ws) asked in
          let again =
            set_timeout ping_interval_ms (ping_tick ws)
              (record timed { pong_timer = asked.next_timer }) in
          record again { ping_timer = timed.next_timer })

  unfoldable pub check_pong : ℕ → Conn R → Conn R
  check_pong ws s = if s.awaiting_pong then socket_close ws s else s

  unfoldable pub type_is : String → Option (Json R) → Bool
  type_is name (some (string x)) = ite (String-discrete x name) true false
  type_is name _ = false

  unfoldable pub is_pong : Json R → Bool
  unfolding type_is
  is_pong (obj fs) = type_is "pong" (get_field fs "type")
  is_pong _ = false

  unfoldable pub on_open : ℕ → Conn R → Conn R
  unfolding start_heartbeat
  on_open ws s = tell told_open (start_heartbeat ws (record s { attempt = 0 }))

  unfoldable pub on_message : Incoming R → Conn R → Conn R
  unfolding is_pong
  on_message binary s = s
  on_message malformed s = s
  on_message (parsed m) s =
      if is_pong m
      then clear_timeout s.pong_timer (record s { awaiting_pong = false })
      else tell (told_message m) s

  unfoldable pub veto : Conn R → Conn R
  veto s = clear_timeout s.retry_timer (record s { reconnect_vetoed = true })

  -- `onclose`, behind the call of the handler.
  unfoldable pub after_close : Option (ℕ → Bool) → ℕ → Conn R → Conn R
  unfolding veto schedule_reconnect
  after_close reconnect code s =
      if s.closed then s else if not (retries reconnect code) then veto s else schedule_reconnect s

  unfoldable pub handle_close : Option (ℕ → Bool) → ℕ → Conn R → Conn R
  unfolding clear_timers after_close
  handle_close reconnect code s =
      after_close reconnect code (tell (told_close code) (clear_timers s))

  unfoldable pub reopen : Conn R → Conn R
  unfolding open_socket
  reopen s = open_socket (record (clear_timeout s.retry_timer s) { attempt = 0 })

  unfoldable pub on_socket : Option ℕ → Conn R → Conn R
  unfolding reopen
  on_socket none s = reopen s
  on_socket (some ws) s = if is_ready_open (s.sockets ws).ready then s else reopen s

  -- On a `visibilitychange` to visible.
  unfoldable pub on_visibility : Conn R → Conn R
  unfolding on_socket
  on_visibility s = if s.closed || s.reconnect_vetoed then s else on_socket s.socket s

  unfoldable pub send_on : Option ℕ → Json R → Conn R → Conn R × Bool
  send_on none msg s = (s, false)
  send_on (some ws) msg s =
      if is_ready_open (s.sockets ws).ready then (tell (sent ws msg) s, true) else (s, false)

  unfoldable pub send : Json R → Conn R → Conn R × Bool
  unfolding send_on
  send msg s = send_on s.socket msg s

  unfoldable pub close : Conn R → Conn R
  unfolding clear_timers release
  close s =
      let c = clear_timers (record s { closed = true }) in
      record c {
        timers = without c.retry_timer c.timers;
        watches = false;
        sockets = release c.socket c.sockets;
        socket = none;
      }

  unfoldable pub run_callback : Callback → Conn R → Conn R
  unfolding open_socket tick check_pong
  run_callback retry s = open_socket s
  run_callback (ping_tick ws) s = tick ws s
  run_callback (pong_check ws) s = check_pong ws s

  unfoldable pub fire : Option Callback → ℕ → Conn R → Conn R
  unfolding run_callback
  fire none id s = s
  fire (some c) id s = run_callback c (clear_timeout id s)

pub data Event (R : Type 0) : Type 0 where
  opens errs : (ws : ℕ) → Event R
  receives : (ws : ℕ) → Incoming R → Event R
  closes : (ws code : ℕ) → Event R
  fires : (timer : ℕ) → Event R
  shows : Event R
  sends : Json R → Event R
  ends : Event R

module _ {R : Type 0} (reconnect : Option (ℕ → Bool)) where
  unfoldable pub step : Conn R → Event R → Conn R
  step s (opens ws) =
      let k = s.sockets ws in
      if is_ready_connecting k.ready
      then (if k.listens then on_open ws (with_ready ws is_open s) else with_ready ws is_open s)
      else s
  step s (errs ws) = if (s.sockets ws).listens then tell told_error s else s
  step s (receives ws x) =
      let k = s.sockets ws in
      if is_ready_open k.ready then (if k.listens then on_message x s else s) else s
  step s (closes ws code) =
      let k = s.sockets ws in
      if is_ready_closed k.ready
      then s
      else if k.on_close
      then handle_close reconnect code (with_ready ws is_closed s)
      else with_ready ws is_closed s
  step s (fires id) = fire (find_timer id s.timers) id s
  step s shows = if s.watches then on_visibility s else s
  step s (sends msg) = (send msg s).0
  step s ends = close s

  unfoldable pub run : Conn R → List (Event R) → Conn R
  run s [] = s
  run s (e ∷ es) = run (step s e) es

-- The state when `connectWs` returns.
unfoldable pub connect : {R : Type 0} → Conn R
unfolding open_socket
connect = open_socket (record {
  socket = none;
  closed = false;
  reconnect_vetoed = false;
  attempt = 0;
  retry_timer = 0;
  ping_timer = 0;
  pong_timer = 0;
  awaiting_pong = false;
  watches = true;
  sockets = λ _. record { ready = is_closed; listens = false; on_close = false };
  created = 0;
  timers = [];
  next_timer = 1;
  outputs = [];
})
