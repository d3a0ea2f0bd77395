-- ===== src/Stats/Polling.antt =====
-- The requests of the polling.
use oh_my_terminal.Base.{
  ℕ, suc, ◌<◌, ◌≡◌, Option, none, some, List, [], ◌∷◌, true, false, ◌==◌, arith, refl,
  if◌then◌else◌, if_intro,
}
use oh_my_terminal.Wizard.{take_request, drop_request}
use oh_my_terminal.Wizard.Requests.{count_of, count_of-drop_request}
use oh_my_terminal.Stats.{
  Stats, Reply, measured, refused, Event, opened, shut, translated, interval, replied, fetch_stats,
  begin_polling, end_polling, receive, settle, step, run, closed,
}

module _ {S : Type 0} where
  -- One request in flight is of the present run while `inFlight` is set, and none is when it is not;
  -- none is of a later run; and it is not set while the dialog is shut.
  abbrev pub IsSound : Stats S → Type 0
  IsSound s =
      (count_of s.generation s.pending ≡ (if s.in_flight then 1 else 0))
      × ((g : ℕ) → s.generation < g → count_of g s.pending ≡ 0)
      × (s.open_now ≡ false → s.in_flight ≡ false)

  begin_polling-IsSound : (s : Stats S) → IsSound s → s.open_now ≡ true → IsSound (begin_polling s)
  unfolding begin_polling fetch_stats count_of
  begin_polling-IsSound s v e = (
    ground (arith, v.1 (suc s.generation)),
    λ g h. ground (arith, v.1 g),
    λ x. absurd (cc (e, x)),
  )

  fetch_stats-IsSound : (s : Stats S) → IsSound s → s.open_now ≡ true → IsSound (fetch_stats s)
  unfolding fetch_stats count_of
  fetch_stats-IsSound s v e =
      if_intro IsSound s.in_flight s _ (λ _. v)
        (λ f. (ground arith, λ g h. ground (arith, v.1 g), λ x. absurd (cc (e, x))))

  module _ (s : Stats S) (v : IsSound s) (g place : ℕ)
      (e : take_request place s.pending ≡ some g) where
    taken-IsSound :
        (g == s.generation) ≡ false → IsSound (record s { pending = drop_request place s.pending })
    taken-IsSound h = (
      ground (arith, count_of-drop_request place g s.generation s.pending e),
      λ j l. ground (arith, v.1 j, count_of-drop_request place g j s.pending e),
      v.2,
    )

    received-IsSound :
        (r : Reply S)
        → (g == s.generation) ≡ true
        → IsSound (receive r (record s { pending = drop_request place s.pending }))
    unfolding receive
    received-IsSound (measured x) h = (
      ground (arith, count_of-drop_request place g s.generation s.pending e),
      λ j l. ground (arith, v.1 j, count_of-drop_request place g j s.pending e),
      λ _. refl,
    )
    received-IsSound (refused m) h = (
      ground (arith, count_of-drop_request place g s.generation s.pending e),
      λ j l. ground (arith, v.1 j, count_of-drop_request place g j s.pending e),
      λ _. refl,
    )

  settle-IsSound :
      (o : Option ℕ) (place : ℕ) (r : Reply S) (s : Stats S)
      → take_request place s.pending ≡ o
      → IsSound s
      → IsSound (settle o place r s)
  unfolding settle
  settle-IsSound none place r s e v = v
  settle-IsSound (some g) place r s e v =
      let taken : Stats S = record s { pending = drop_request place s.pending } in
      if_intro IsSound (g == s.generation) (receive r taken) taken
        (received-IsSound s v g place e r) (taken-IsSound s v g place e)

  step-IsSound : (s : Stats S) (x : Event S) → IsSound s → IsSound (step s x)
  unfolding step end_polling
  step-IsSound s opened v =
      if_intro IsSound s.open_now s _ (λ _. v)
        (λ e.
          begin_polling-IsSound (record s { open_now = true }) (v.0, v.1, λ x. absurd (cc x)) refl)
  step-IsSound s shut v =
      if_intro IsSound s.open_now _ s
        (λ _. (v.1 (suc s.generation) (omega arith), λ g h. v.1 g (omega arith), λ _. refl))
        (λ _. v)
  step-IsSound s translated v =
      if_intro IsSound s.open_now _ s (λ e. begin_polling-IsSound s v e) (λ _. v)
  step-IsSound s interval v =
      if_intro IsSound s.open_now _ s (λ e. fetch_stats-IsSound s v e) (λ _. v)
  step-IsSound s (replied place r) v =
      settle-IsSound (take_request place s.pending) place r s refl v

  run-IsSound : (es : List (Event S)) (s : Stats S) → IsSound s → IsSound (run s es)
  unfolding run
  run-IsSound [] s v = v
  run-IsSound (e ∷ es) s v = run-IsSound es (step s e) (step-IsSound s e v)

  -- From the mount on, whatever the user, the clock and the server do: one request in flight is of
  -- the present run of the effect while `inFlight` is set, and none is when it is not; none is of a
  -- later run; and `inFlight` is not set while the dialog is shut.
  pub run-closed-IsSound : (es : List (Event S)) → IsSound (run closed es)
  unfolding count_of
  run-closed-IsSound es = run-IsSound es closed (refl, λ g h. refl, λ _. refl)
