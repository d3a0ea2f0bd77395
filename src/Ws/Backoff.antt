-- ===== src/Ws/Backoff.antt =====
-- The delays between attempts to reconnect.
use oh_my_terminal.Base.{ℕ, zero, suc, ◌*◌, ◌^◌, ◌≤◌, ◌<◌, ◌≡◌, arith}
use native.Mathlib.Nat.{pow-suc}
use oh_my_terminal.Ws.{retry_delay}

one-le-pow : (n : ℕ) → 1 ≤ 2 ^ n
one-le-pow zero = omega arith
one-le-pow (suc n) = rw pow-suc (omega (arith, one-le-pow n))

sixteen-le-pow : (n : ℕ) → 16 ≤ 2 ^ suc (suc (suc (suc n)))
sixteen-le-pow n = simp pow-suc (omega (arith, one-le-pow n))

-- A delay is between one and ten seconds; from the fifth attempt on it is ten seconds, and before
-- that each delay is twice the last, capped at ten seconds.
retry_delay_bounds :
    (n : ℕ)
    → (1000 ≤ retry_delay n)
      × (retry_delay n ≤ 10000)
      × (4 ≤ n → retry_delay n ≡ 10000)
      × (retry_delay (suc n) ≤ 2 * retry_delay n)
      × (retry_delay n ≤ retry_delay (suc n))
      × (n < 3 → retry_delay (suc n) ≡ 2 * retry_delay n)
unfolding retry_delay
retry_delay_bounds zero = omega arith
retry_delay_bounds (suc zero) = omega arith
retry_delay_bounds (suc (suc zero)) = omega arith
retry_delay_bounds (suc (suc (suc zero))) = omega arith
retry_delay_bounds (suc (suc (suc (suc n)))) =
    omega (arith, sixteen-le-pow n, sixteen-le-pow (suc n))
