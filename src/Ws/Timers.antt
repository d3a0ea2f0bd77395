-- ===== src/Ws/Timers.antt =====
-- Pending timeouts, and which of them are attempts to reconnect.
use oh_my_terminal.Base.{
  ℕ, ◌+◌, ◌≤◌, ◌≡◌, some, none, List, [], ◌∷◌, Bool, true, false, arith, refl, if◌then◌else◌,
}
use oh_my_terminal.Ws.{Timer, Callback, retry, ping_tick, pong_check, without, find_timer}

abbrev pub is_retry : Callback → Bool
is_retry retry = true
is_retry (ping_tick _) = false
is_retry (pong_check _) = false

unfoldable pub count_retry : List Timer → ℕ
count_retry [] = 0
count_retry (t ∷ ts) = (if is_retry t.callback then 1 else 0) + count_retry ts

-- All pending attempts have the id.
abbrev pub RetriesAre : ℕ → List Timer → Type 0
RetriesAre id [] = Unit
RetriesAre id (t ∷ ts) = (is_retry t.callback ≡ true → t.id ≡ id) × RetriesAre id ts

pub count_retry-without : (k : ℕ) (ts : List Timer) → count_retry (without k ts) ≤ count_retry ts
unfolding count_retry without
count_retry-without k [] = omega arith
count_retry-without k (t ∷ ts) = ground (arith, count_retry-without k ts)

pub RetriesAre-without :
    (id k : ℕ) (ts : List Timer) → RetriesAre id ts → RetriesAre id (without k ts)
unfolding without
RetriesAre-without id k [] h = tt
RetriesAre-without id k (t ∷ ts) h = ground (arith, RetriesAre-without id k ts h.1)

pub count_retry-without_self :
    (id : ℕ) (ts : List Timer) → RetriesAre id ts → count_retry (without id ts) ≡ 0
unfolding count_retry without
count_retry-without_self id [] h = refl
count_retry-without_self id (t ∷ ts) h = ground (arith, count_retry-without_self id ts h.1)

pub find_timer-retry :
    (id k : ℕ) (ts : List Timer)
    → RetriesAre id ts
    → find_timer k ts ≡ some retry
    → (k ≡ id) × (1 ≤ count_retry ts)
unfolding count_retry find_timer
find_timer-retry id k [] h e = cc
find_timer-retry id k (t ∷ ts) h e = ground (arith, find_timer-retry id k ts h.1)

-- Without a pending attempt any id will do.
pub RetriesAre-none : (id : ℕ) (ts : List Timer) → count_retry ts ≡ 0 → RetriesAre id ts
unfolding count_retry
RetriesAre-none id [] e = tt
RetriesAre-none id (t ∷ ts) e = ground (arith, RetriesAre-none id ts)

pub find_timer-without : (k : ℕ) (ts : List Timer) → find_timer k (without k ts) ≡ none
unfolding find_timer without
find_timer-without k [] = refl
find_timer-without k (t ∷ ts) = ground (arith, find_timer-without k ts)
