-- ===== src/Stats/Tests.antt =====
-- Times, a run of the polling, and the theorems at them.
use oh_my_terminal.Base.{ℕ, ◌+◌, ◌*◌, ◌≤◌, ◌<◌, arith, ◌≡◌, some, List, [], ◌∷◌, refl}
use oh_my_terminal.Wizard.{take_request, drop_request}
use oh_my_terminal.FileTree.{in_gb}
use oh_my_terminal.Stats.{
  hours, whole_uptime, format_uptime, format_bytes, hundredths, Event, opened, shut, interval,
  replied, measured, run, closed, step, begin_polling, end_polling, fetch_stats, settle, receive,
}
use oh_my_terminal.Stats.Times.{in_seconds, IsProper, in_seconds-format_uptime}
use oh_my_terminal.Stats.Polling.{IsSound, run-closed-IsSound}

in_seconds-format_uptime_example :
    let t = format_uptime 7451 2 in
    (in_seconds t * 2 ≤ 7451) × (7451 < (in_seconds t + 1) * 2) × IsProper t
in_seconds-format_uptime_example = in_seconds-format_uptime 7451 2 (omega arith)

-- 3725.5 seconds
one_hour : format_uptime 7451 2 ≡ hours 1 2 5
unfolding format_uptime whole_uptime
one_hour = refl

-- 1.5 GB
gigabytes : format_bytes 1610612736 ≡ in_gb 150
unfolding format_bytes hundredths
gigabytes = refl

-- The dialog is shut and opened again before the first answer, which is ignored then.
abbrev visits : List (Event ℕ)
visits =
    opened
    ∷ interval
    ∷ shut
    ∷ opened
    ∷ replied 1 (measured 5)
    ∷ replied 0 (measured 6)
    ∷ interval
    ∷ []

run-closed-IsSound_example : IsSound (run closed visits)
run-closed-IsSound_example = run-closed-IsSound visits

second_shown : (run closed visits).stats ≡ some 6
unfolding run step begin_polling end_polling fetch_stats settle receive take_request drop_request
second_shown = refl

one_pending : (run closed visits).pending ≡ 3 ∷ []
unfolding run step begin_polling end_polling fetch_stats settle receive take_request drop_request
one_pending = refl
