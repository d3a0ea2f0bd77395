-- ===== src/Stats.antt =====
-- frontend/src/features/system/SystemStatsModal.tsx: the texts of sizes and times, and the polling
-- while the dialog is open. `S` is the type of what the server sends. The runs of the effect are
-- numbered, and `in_flight` is the variable `inFlight` of the last one; `pending` has the numbers of
-- the runs of the requests without an answer.
pub mod Times
pub mod Polling
mod Tests
use oh_my_terminal.Base.{
  ℕ, suc, ◌+◌, ◌*◌, ◌/◌, ◌%◌, String, Option, none, some, List, [], ◌∷◌, Bool, true, false, ◌==◌,
  ltb, if◌then◌else◌, ite, String-discrete,
}
use oh_my_terminal.Wizard.{take_request, drop_request}
use oh_my_terminal.FileTree.{kilo, tenths, Size, whole, in_kb, in_mb, in_gb}

-- `(bytes / unit).toFixed(2)` in hundredths: the quotient is exact, and a tie goes up.
unfoldable pub hundredths : ℕ → ℕ → ℕ
hundredths bytes unit = (200 * bytes + unit) / (2 * unit)

-- Gigabytes are in hundredths here.
unfoldable pub format_bytes : ℕ → Size
unfolding hundredths tenths
format_bytes bytes =
    if ltb bytes kilo
    then whole bytes
    else if ltb bytes (kilo * kilo)
    then in_kb (tenths bytes kilo)
    else if ltb bytes (kilo * kilo * kilo)
    then in_mb (tenths bytes (kilo * kilo))
    else in_gb (hundredths bytes (kilo * kilo * kilo))

pub data Uptime : Type 0 where
  hours : (h m s : ℕ) → Uptime
  minutes : (m s : ℕ) → Uptime
  seconds : (s : ℕ) → Uptime

-- From the whole seconds on.
unfoldable pub whole_uptime : ℕ → Uptime
whole_uptime s =
    let h = s / 3600 in
    let m = s % 3600 / 60 in
    let sec = s % 60 in
    if ltb 0 h then hours h m sec else if ltb 0 m then minutes m sec else seconds sec

-- The seconds are a number that is not negative, the `numerator` of them by the `denominator`.
unfoldable pub format_uptime : (numerator denominator : ℕ) → Uptime
unfolding whole_uptime
format_uptime numerator denominator = whole_uptime (numerator / denominator)

pub record Stats (S : Type 0) : Type 0 where
  pub open_now : Bool
  pub stats : Option S
  pub error : String
  pub generation : ℕ
  pub in_flight : Bool
  pub pending : List ℕ

pub data Reply (S : Type 0) : Type 0 where
  measured : S → Reply S
  refused : (message : String) → Reply S

pub data Event (S : Type 0) : Type 0 where
  opened shut : Event S
  -- the language has changed, and with it `t`
  translated : Event S
  -- two seconds have passed
  interval : Event S
  replied : (place : ℕ) → Reply S → Event S

module _ {S : Type 0} where
  unfoldable pub fetch_stats : Stats S → Stats S
  fetch_stats s =
      if s.in_flight then s else record s { in_flight = true; pending = s.generation ∷ s.pending }

  -- A run of the effect, behind its guard.
  unfoldable pub begin_polling : Stats S → Stats S
  unfolding fetch_stats
  begin_polling s = fetch_stats (record s { generation = suc s.generation; in_flight = false })

  -- The cleanup sets `cancelled` and clears the interval.
  unfoldable pub end_polling : Stats S → Stats S
  end_polling s = record s { open_now = false; generation = suc s.generation; in_flight = false }

  unfoldable pub receive : Reply S → Stats S → Stats S
  receive (measured x) s = record s { stats = some x; error = ""; in_flight = false }
  receive (refused message) s = record s { error = message; in_flight = false }

  unfoldable pub settle : Option ℕ → ℕ → Reply S → Stats S → Stats S
  unfolding receive
  settle none place r s = s
  settle (some g) place r s =
      let taken = record s { pending = drop_request place s.pending } in
      if g == s.generation then receive r taken else taken

  unfoldable pub step : Stats S → Event S → Stats S
  unfolding begin_polling end_polling settle fetch_stats
  step s opened = if s.open_now then s else begin_polling (record s { open_now = true })
  step s shut = if s.open_now then end_polling s else s
  step s translated = if s.open_now then begin_polling s else s
  step s interval = if s.open_now then fetch_stats s else s
  step s (replied place r) = settle (take_request place s.pending) place r s

  unfoldable pub run : Stats S → List (Event S) → Stats S
  unfolding step
  run s [] = s
  run s (e ∷ es) = run (step s e) es

  -- When the component is mounted, shut.
  abbrev pub closed : Stats S
  closed = record {
    open_now = false;
    stats = none;
    error = "";
    generation = 0;
    in_flight = false;
    pending = [];
  }

-- What the dialog shows.
pub data Shown (S : Type 0) : Type 0 where
  failure : (message : String) → Shown S
  waiting : Shown S
  grid : S → Shown S

grid_or_waiting : {S : Type 0} → Option S → Shown S
grid_or_waiting none = waiting
grid_or_waiting (some x) = grid x

unfoldable pub shown : {S : Type 0} → Stats S → Shown S
unfolding grid_or_waiting
shown s = ite (String-discrete s.error "") (grid_or_waiting s.stats) (failure s.error)
