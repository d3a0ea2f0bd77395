-- ===== src/TouchSelect/Scrolling.antt =====
-- A finger that moves early scrolls, and one that rests first selects.
use oh_my_terminal.Base.{
  ℕ, ◌≡◌, ◌∙◌, Bool, true, false, not, List, [], ◌∷◌, if◌then◌else◌, ◌==◌, length, All, arith, refl,
  ap, sym, subst, Bool-cases, inl, inr, ◌++◌, map,
}
use oh_my_terminal.TouchSelect.{
  Point, mouse_down, mouse_move, mouse_up, Gesture, is_far, Event, touch_start, touch_move,
  touch_end, touch_cancel, long_press, fire_mouse, on_touch_start, on_long_press, on_touch_move,
  copy_selection, end_at, on_touch_end, on_touch_cancel, step, run,
}

-- No text is being selected, and the timeout is not pending.
abbrev pub IsIdle : Gesture → Type 0
IsIdle s = (s.selecting ≡ false) × (s.timer ≡ false)

abbrev pub is_start : Event → Bool
is_start (touch_start _) = true
is_start _ = false

-- The events of one finger between its touch and its release.
abbrev pub is_near_move : Point → Event → Bool
is_near_move p (touch_move (t ∷ [])) = not (is_far t p)
is_near_move p _ = false

module _ (is_mac owns_mouse : Bool) (trim : List ℕ → List ℕ) where
  abbrev Quiet : Gesture → Gesture → Type 0
  Quiet s t = IsIdle t × (t.fired ≡ s.fired) × (t.copied ≡ s.copied)

  step-Quiet :
      (s : Gesture) (e : Event)
      → IsIdle s
      → is_start e ≡ false
      → Quiet s (step is_mac owns_mouse trim s e)
  unfolding step on_long_press on_touch_move on_touch_end on_touch_cancel
  step-Quiet s (touch_start ts) i n = absurd (cc)
  step-Quiet s (touch_move []) i n = ground arith
  step-Quiet s (touch_move (t ∷ ts)) i n = ground arith
  step-Quiet s (touch_end ts text) i n = ground arith
  step-Quiet s touch_cancel i n = ground arith
  step-Quiet s long_press i n = ground arith

  run-Quiet :
      (s : Gesture) (es : List Event)
      → IsIdle s
      → All (λ e. is_start e ≡ false) es
      → Quiet s (run is_mac owns_mouse trim s es)
  unfolding run
  run-Quiet s [] i n = (i, refl, refl)
  run-Quiet s (e ∷ es) i n =
      let (i', f, c) = step-Quiet s e i n.0 in
      let (i″, f', c') = run-Quiet (step is_mac owns_mouse trim s e) es i' n.1 in
      (i″, f' ∙ f, c' ∙ c)

  near_move-same :
      (s : Gesture) (p t : Point)
      → s.selecting ≡ false
      → s.start ≡ p
      → not (is_far t p) ≡ true
      → on_touch_move is_mac owns_mouse trim (t ∷ []) s ≡ s
  unfolding on_touch_move
  near_move-same s p t q e n =
      let near : not (is_far t s.start) ≡ true = subst (λ x. not (is_far t x) ≡ true) (sym e) n in
      elim (Bool-cases (is_far t s.start)) [
        | inl f ↦ absurd (cc (near, f))
        | inr f ↦ rw (q, f) refl
      ]

  -- Near moves change nothing before the timeout fires.
  near-same :
      (s : Gesture) (p : Point) (es : List Event)
      → s.selecting ≡ false
      → s.start ≡ p
      → All (λ e. is_near_move p e ≡ true) es
      → run is_mac owns_mouse trim s es ≡ s
  unfolding run step
  near-same s p [] q e n = refl
  near-same s p (touch_move (t ∷ []) ∷ es) q e n =
      ap (λ x. run is_mac owns_mouse trim x es) (near_move-same s p t q e n.0)
      ∙ near-same s p es q e n.1
  near-same s p (touch_move [] ∷ es) q e n = absurd (cc)
  near-same s p (touch_move (t ∷ u ∷ ts) ∷ es) q e n = absurd (cc)
  near-same s p (touch_start ts ∷ es) q e n = absurd (cc)
  near-same s p (touch_end ts text ∷ es) q e n = absurd (cc)
  near-same s p (touch_cancel ∷ es) q e n = absurd (cc)
  near-same s p (long_press ∷ es) q e n = absurd (cc)

  run-append :
      (s : Gesture) (xs ys : List Event)
      → run is_mac owns_mouse trim s (xs ++ ys)
        ≡ run is_mac owns_mouse trim (run is_mac owns_mouse trim s xs) ys
  unfolding run
  run-append s [] ys = refl
  run-append s (x ∷ xs) ys = run-append (step is_mac owns_mouse trim s x) xs ys

  near-append :
      (s : Gesture) (p : Point) (near rest : List Event)
      → s.selecting ≡ false
      → s.start ≡ p
      → All (λ e. is_near_move p e ≡ true) near
      → run is_mac owns_mouse trim s (near ++ rest) ≡ run is_mac owns_mouse trim s rest
  near-append s p near rest q e n =
      run-append s near rest
      ∙ ap (λ x. run is_mac owns_mouse trim x rest) (near-same s p near q e n)

  far_move-same :
      (s : Gesture) (t : Point)
      → s.selecting ≡ false
      → is_far t s.start ≡ true
      → on_touch_move is_mac owns_mouse trim (t ∷ []) s ≡ record s { timer = false }
  unfolding on_touch_move
  far_move-same s t q f = rw (q, f) refl

  -- While no text is being selected, a finger touches, moves a little, then far, all before the timeout
  -- fires: whatever happens then, up to the next touch, no mouse event is fired and nothing is copied.
  pub swipe-quiet :
      (s : Gesture) (p t : Point) (near es : List Event)
      → s.selecting ≡ false
      → All (λ e. is_near_move p e ≡ true) near
      → is_far t p ≡ true
      → All (λ e. is_start e ≡ false) es
      → let u =
          run is_mac owns_mouse trim s
            (touch_start (p ∷ []) ∷ (near ++ touch_move (t ∷ []) ∷ es)) in
        (u.fired ≡ s.fired) × (u.copied ≡ s.copied)
  unfolding run step on_touch_start
  swipe-quiet s p t near es q n f h =
      let begun = record s { start = p; timer = true } in
      let idle = record begun { timer = false } in
      let same : run is_mac owns_mouse trim begun (near ++ touch_move (t ∷ []) ∷ es)
          ≡ run is_mac owns_mouse trim idle es =
        near-append begun p near (touch_move (t ∷ []) ∷ es) q refl n
        ∙ ap (λ x. run is_mac owns_mouse trim x es) (far_move-same begun t q f) in
      let (_, no_event, no_copy) = run-Quiet idle es (q, refl) h in
      subst (λ x. (x.fired ≡ s.fired) × (x.copied ≡ s.copied)) (sym same) (no_event, no_copy)

  -- What a whole selection leaves.
  abbrev pub Selected : Gesture → Point → Point → Point → List ℕ → Gesture → Type 0
  Selected s p t u text r =
      (map (λ e. e.kind) r.fired ≡ mouse_up ∷ mouse_move ∷ mouse_down ∷ map (λ e. e.kind) s.fired)
      × (map (λ e. e.at) r.fired ≡ u ∷ t ∷ p ∷ map (λ e. e.at) s.fired)
      × (r.copied ≡ (if length (trim text) == 0 then s.copied else text ∷ s.copied))
      × IsIdle r

  pressed :
      (s : Gesture) (t u : Point) (text : List ℕ)
      → s.timer ≡ true
      → Selected s s.start t u text (
          run is_mac owns_mouse trim s
            (long_press ∷ touch_move (t ∷ []) ∷ touch_end (u ∷ []) text ∷ []))
  unfolding run step on_long_press on_touch_move on_touch_end end_at copy_selection fire_mouse
  pressed s t u text e = rw e (ground arith)

  -- A finger touches and moves a little until the timeout fires, then moves and is lifted: the mouse
  -- is pressed where the finger touched, moved and released where it was lifted, the selection is
  -- copied unless it is blank, and the gesture is over.
  press-selects :
      (s : Gesture) (p t u : Point) (near : List Event) (text : List ℕ)
      → s.selecting ≡ false
      → All (λ e. is_near_move p e ≡ true) near
      → Selected s p t u text (
          run is_mac owns_mouse trim s (
            touch_start (p ∷ [])
            ∷ (near ++ long_press ∷ touch_move (t ∷ []) ∷ touch_end (u ∷ []) text ∷ [])))
  unfolding run step on_touch_start
  press-selects s p t u near text q n =
      let begun = record s { start = p; timer = true } in
      let last = long_press ∷ touch_move (t ∷ []) ∷ touch_end (u ∷ []) text ∷ [] in
      subst (Selected s p t u text) (sym (near-append begun p near last q refl n))
        (pressed begun t u text refl)
