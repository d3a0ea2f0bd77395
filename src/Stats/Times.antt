-- ===== src/Stats/Times.antt =====
-- The text of a time says the time.
use native.Mathlib.Nat.{div-mul-le_self, div-lt_iff_lt-mul}
use oh_my_terminal.Base.{ℕ, ◌+◌, ◌*◌, ◌/◌, ◌<◌, ◌≤◌, ◌≡◌, arith, subst, sym}
use oh_my_terminal.Stats.{Uptime, hours, minutes, seconds, whole_uptime, format_uptime}

abbrev pub in_seconds : Uptime → ℕ
in_seconds (hours h m s) = h * 3600 + m * 60 + s
in_seconds (minutes m s) = m * 60 + s
in_seconds (seconds s) = s

-- Minutes and seconds are below sixty, and the first number is not zero but for seconds alone.
abbrev pub IsProper : Uptime → Type 0
IsProper (hours h m s) = (1 ≤ h) × (m < 60) × (s < 60)
IsProper (minutes m s) = (1 ≤ m) × (m < 60) × (s < 60)
IsProper (seconds s) = s < 60

in_seconds-whole_uptime : (s : ℕ) → let t = whole_uptime s in (in_seconds t ≡ s) × IsProper t
unfolding whole_uptime
in_seconds-whole_uptime s = ground arith

-- Of a time in seconds, a fraction that is not negative, the text says the whole seconds: as many as
-- have passed and no more, in hours, minutes and seconds, with minutes and seconds below sixty, and
-- without leading zeros.
pub in_seconds-format_uptime :
    (n d : ℕ)
    → 0 < d
    → let t = format_uptime n d in
      (in_seconds t * d ≤ n) × (n < (in_seconds t + 1) * d) × IsProper t
unfolding format_uptime
in_seconds-format_uptime n d h =
    let (said, proper) = in_seconds-whole_uptime (n / d) in
    let least : n / d * d ≤ n = div-mul-le_self n d in
    let most : n < (n / d + 1) * d = (div-lt_iff_lt-mul h).0 (omega arith) in
    (subst (λ s. s * d ≤ n) (sym said) least, subst (λ s. n < (s + 1) * d) (sym said) most, proper)
