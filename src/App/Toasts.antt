-- ===== src/App/Toasts.antt =====
-- The toast of App.tsx and its timeout.
use oh_my_terminal.Base.{
  ℕ, suc, ◌+◌, ◌-◌, ◌≤◌, ◌≡◌, ◌∙◌, ap, none, some, List, [], ◌∷◌, refl, arith, leb, ltb,
  if◌then◌else◌, Bool-cases, inl, inr,
}
use oh_my_terminal.Workspaces.{Toast}
use oh_my_terminal.App.{AppState, notify, pass, wait, toast_dismiss_ms}

-- Some time passes, and again, ...
unfoldable pub passes : {R : Type 0} → List ℕ → AppState R → AppState R
passes [] s = s
passes (d ∷ ds) s = passes ds (pass d s)

unfoldable pub total : List ℕ → ℕ
total [] = 0
total (d ∷ ds) = d + total ds

module _ {R : Type 0} where
  waited : (d left : ℕ) (s : AppState R) → s.timer ≡ some left → pass d s ≡ wait d s (some left)
  unfolding pass
  waited d left s e = ap (wait d s) e

  -- With no timeout pending the toast stays as it is.
  passes-idle : (ds : List ℕ) (s : AppState R) → s.timer ≡ none → (passes ds s).toast ≡ s.toast
  unfolding passes pass wait
  passes-idle [] s e = refl
  passes-idle (d ∷ ds) s e = ap (λ x. (passes ds x).toast) (ap (wait d s) e) ∙ passes-idle ds s e

  passes-toast :
      (ds : List ℕ) (s : AppState R) (left : ℕ)
      → s.timer ≡ some left
      → 1 ≤ left
      → (passes ds s).toast ≡ (if ltb (total ds) left then s.toast else none)
  unfolding passes wait total
  passes-toast [] s left e h = ground arith
  passes-toast (d ∷ ds) s left e h = elim (Bool-cases (leb left d)) [
    | inl l ↦
        ap (λ x. (passes ds x).toast) (waited d left s e ∙ rw l refl)
        ∙ passes-idle ds (record s { toast = none; timer = none }) refl
        ∙ ground arith
    | inr l ↦
        ap (λ x. (passes ds x).toast) (waited d left s e ∙ rw l refl)
        ∙ passes-toast ds (record s { timer = some (left - d) }) (left - d) refl (ground arith)
        ∙ ground arith
  ]

  -- A notification is shown for 2600 milliseconds, however this time is divided, and then no longer,
  -- whatever was shown before it and however much of its time was left.
  notify-passes :
      (x : Toast) (s : AppState R) (ds : List ℕ)
      → (passes ds (notify x s)).toast ≡ (
          if ltb (total ds) toast_dismiss_ms
          then some (record { id = suc s.toast_id; toast = x })
          else none)
  unfolding notify
  notify-passes x s ds = passes-toast ds (notify x s) toast_dismiss_ms refl (omega arith)
