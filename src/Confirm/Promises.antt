-- ===== src/Confirm/Promises.antt =====
-- Each question is answered once, but for the one that is shown.
use oh_my_terminal.Base.{
  ℕ, ◌+◌, ◌≡◌, Option, none, some, Bool, true, false, List, [], ◌∷◌, if◌then◌else◌, ◌==◌, arith,
  refl, ltb,
}
use oh_my_terminal.Confirm.{
  ConfirmOptions, Dialog, resolve, settle, confirm, Event, asks, answers, answer_shown, step, run,
  at_rest,
}

-- How often a promise was resolved.
unfoldable pub count_settled : ℕ → List (ℕ × Bool) → ℕ
count_settled p [] = 0
count_settled p (x ∷ xs) = (if x.0 == p then 1 else 0) + count_settled p xs

-- Whether a promise is the one that the dialog is to resolve.
abbrev pub count_open : ℕ → Option ℕ → ℕ
count_open p none = 0
count_open p (some q) = if q == p then 1 else 0

abbrev pub is_shown : {A : Type 0} → Option A → Bool
is_shown none = false
is_shown (some _) = true

-- A promise that was returned is resolved once or open, one that was not is neither, and a dialog is
-- shown exactly if a promise is open.
abbrev pub IsSound : Dialog → Type 0
IsSound s =
    ((p : ℕ)
      → count_settled p s.settled + count_open p s.resolver ≡ (if ltb p s.asked then 1 else 0))
    × (is_shown s.shown ≡ is_shown s.resolver)

resolve-count :
    (o : Option ℕ) (ok : Bool) (done : List (ℕ × Bool)) (p : ℕ)
    → count_settled p (resolve o ok done) ≡ count_settled p done + count_open p o
unfolding resolve count_settled
resolve-count none ok done p = omega arith
resolve-count (some q) ok done p = omega arith

answer_shown-IsSound :
    (s : Dialog) (ok : Bool) (o : Option ConfirmOptions) → IsSound s → IsSound (answer_shown ok o s)
unfolding answer_shown settle
answer_shown-IsSound s ok none k = k
answer_shown-IsSound s ok (some x) k =
    (λ p. omega (arith, k.0 p, resolve-count s.resolver ok s.settled p), refl)

step-IsSound : (s : Dialog) (e : Event) → IsSound s → IsSound (step s e)
unfolding step confirm
step-IsSound s (asks opts) k =
    (λ p. ground (arith, k.0 p, resolve-count s.resolver false s.settled p), refl)
step-IsSound s (answers ok) k = answer_shown-IsSound s ok s.shown k

run-IsSound : (s : Dialog) (es : List Event) → IsSound s → IsSound (run s es)
unfolding run
run-IsSound s [] k = k
run-IsSound s (e ∷ es) k = run-IsSound (step s e) es (step-IsSound s e k)

at_rest-IsSound : IsSound at_rest
unfolding count_settled
at_rest-IsSound = (λ p. ground arith, refl)

-- Whatever is asked and answered: each promise that `confirm` returned was resolved exactly once,
-- but for the one whose question is shown, which is still open; and nothing else was resolved.
pub run-at_rest-IsSound : (es : List Event) → IsSound (run at_rest es)
run-at_rest-IsSound es = run-IsSound at_rest es at_rest-IsSound
