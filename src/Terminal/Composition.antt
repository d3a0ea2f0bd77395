-- ===== src/Terminal/Composition.antt =====
-- While a text is being composed, the grid is not touched; a fit that is asked for then is made when
-- the composition ends.
use oh_my_terminal.Base.{
  ℕ, ◌+◌, ◌≡◌, ◌∙◌, List, [], ◌∷◌, Bool, true, false, arith, refl, All, subst,
}
use oh_my_terminal.Terminal.{
  Box, Session, Output, resize, Event, opened, received, lost, typed, composition_started,
  composition_ended, blurred, observed, restyled, unmounted, fit_full_width, send_resize, do_fit,
  settle_composition, on_blur, on_open, on_close, on_data, restyle, unmount, step, run, mount,
}

abbrev resize_of : {R : Type 0} → Output R → ℕ
resize_of (resize _ _) = 1
resize_of _ = 0

unfoldable pub count_resize : {R : Type 0} → List (Output R) → ℕ
count_resize [] = 0
count_resize (o ∷ os) = resize_of o + count_resize os

-- A fit is put off only while a text is being composed.
abbrev pub IsSettled : {R : Type 0} → Session R → Type 0
IsSettled s = s.pending_fit ≡ true → s.composing ≡ true

-- The events that end a composition.
abbrev pub ends_composition : {R : Type 0} → Event R → Bool
ends_composition (composition_ended _) = true
ends_composition (blurred _) = true
ends_composition unmounted = true
ends_composition _ = false

-- The events that ask for a fit.
abbrev pub asks_fit : {R : Type 0} → Event R → Bool
asks_fit (opened _) = true
asks_fit (observed _) = true
asks_fit (restyled _) = true
asks_fit _ = false

module _ {R : Type 0} where
  asks-keeps : (e : Event R) → asks_fit e ≡ true → ends_composition e ≡ false
  asks-keeps (opened _) a = refl
  asks-keeps (observed _) a = refl
  asks-keeps (restyled _) a = refl
  asks-keeps (received _) a = cc
  asks-keeps (lost _) a = cc
  asks-keeps (typed _) a = cc
  asks-keeps composition_started a = cc
  asks-keeps (composition_ended _) a = cc
  asks-keeps (blurred _) a = cc
  asks-keeps unmounted a = cc

  step-IsSettled : (s : Session R) (e : Event R) → IsSettled s → IsSettled (step s e)
  unfolding step on_open do_fit send_resize settle_composition on_blur restyle unmount on_close
      on_data
  step-IsSettled s (opened b) k = ground arith
  step-IsSettled s (received m) k = ground arith
  step-IsSettled s (lost code) k = ground arith
  step-IsSettled s (typed d) k = ground arith
  step-IsSettled s composition_started k = ground arith
  step-IsSettled s (composition_ended b) k = ground arith
  step-IsSettled s (blurred b) k = ground arith
  step-IsSettled s (observed b) k = ground arith
  step-IsSettled s (restyled b) k = ground arith
  step-IsSettled s unmounted k = ground arith

  run-IsSettled : (s : Session R) (es : List (Event R)) → IsSettled s → IsSettled (run s es)
  unfolding run
  run-IsSettled s [] k = k
  run-IsSettled s (e ∷ es) k = run-IsSettled (step s e) es (step-IsSettled s e k)

  -- From the mount on, whatever happens, a fit is pending only while a text is being composed.
  mount-IsSettled :
      (b : Box) (grid : ℕ × ℕ) (es : List (Event R)) → IsSettled (run (mount b grid) es)
  unfolding mount
  mount-IsSettled b grid es = run-IsSettled (mount b grid) es (λ e. absurd (cc))

  -- What one event leaves alone while a text is being composed.
  abbrev Kept : Session R → Session R → Type 0
  Kept s t =
      (t.composing ≡ true)
      × (t.mounted ≡ true)
      × (s.pending_fit ≡ true → t.pending_fit ≡ true)
      × (t.grid ≡ s.grid)
      × (count_resize t.outputs ≡ count_resize s.outputs)

  step-Kept :
      (s : Session R) (e : Event R)
      → s.mounted ≡ true
      → s.composing ≡ true
      → ends_composition e ≡ false
      → Kept s (step s e) × (asks_fit e ≡ true → (step s e).pending_fit ≡ true)
  unfolding step on_open do_fit send_resize restyle on_close on_data count_resize
  step-Kept s (opened b) m c n = ground arith
  step-Kept s (received x) m c n = ground arith
  step-Kept s (lost code) m c n = ground arith
  step-Kept s (typed d) m c n = ground arith
  step-Kept s composition_started m c n = ground arith
  step-Kept s (composition_ended b) m c n = ground arith
  step-Kept s (blurred b) m c n = ground arith
  step-Kept s (observed b) m c n = ground arith
  step-Kept s (restyled b) m c n = ground arith
  step-Kept s unmounted m c n = ground arith

  -- No event of the list ends a composition.
  abbrev pub KeepsComposing : List (Event R) → Type 0
  KeepsComposing es = All (λ e. ends_composition e ≡ false) es

  run-Kept :
      (s : Session R) (es : List (Event R))
      → s.mounted ≡ true
      → s.composing ≡ true
      → KeepsComposing es
      → Kept s (run s es)
  unfolding run
  run-Kept s [] m c h = (c, m, λ p. p, refl, refl)
  run-Kept s (e ∷ es) m c h =
      let ((c', m', p', g', o'), _) = step-Kept s e m c h.0 in
      let (c″, m″, p″, g″, o″) = run-Kept (step s e) es m' c' h.1 in
      (c″, m″, λ p. p″ (p' p), g″ ∙ g', o″ ∙ o')

  -- What an end of the composition leaves: the grid is fitted once, and its new size is sent.
  abbrev pub Fitted : Box → ℕ × ℕ → List (Output R) → Session R → Type 0
  Fitted b grid outputs u =
      (u.grid ≡ (fit_full_width b grid).0)
      × (u.composing ≡ false)
      × (u.pending_fit ≡ false)
      × (u.outputs ≡ resize u.grid.0 u.grid.1 ∷ outputs)

  end-fits :
      (s : Session R) (b : Box)
      → s.mounted ≡ true
      → s.composing ≡ true
      → s.pending_fit ≡ true
      → Fitted b s.grid s.outputs (step s (composition_ended b))
        × Fitted b s.grid s.outputs (step s (blurred b))
  unfolding step settle_composition do_fit send_resize on_blur
  end-fits s b m c p = ground arith

  -- When a fit is asked for while a text is being composed, then until the composition ends the grid
  -- stays and no size is sent, and when it ends, by its own end or since the field loses the focus, the
  -- grid is fitted once and its new size is sent.
  pub deferred-fit :
      (s : Session R) (asks : Event R) (es : List (Event R)) (b : Box)
      → s.mounted ≡ true
      → s.composing ≡ true
      → asks_fit asks ≡ true
      → KeepsComposing es
      → let t = run (step s asks) es in
        (t.grid ≡ s.grid)
        × (count_resize t.outputs ≡ count_resize s.outputs)
        × Fitted b s.grid t.outputs (step t (composition_ended b))
        × Fitted b s.grid t.outputs (step t (blurred b))
  deferred-fit s asks es b m c a h =
      let ((c', m', _, g', o'), asked) = step-Kept s asks m c (asks-keeps asks a) in
      let (c″, m″, p″, g″, o″) = run-Kept (step s asks) es m' c' h in
      let t = run (step s asks) es in
      let same : t.grid ≡ s.grid = g″ ∙ g' in
      let (ended, blurs) = end-fits t b m″ c″ (p″ (asked a)) in
      (
        same,
        o″ ∙ o',
        subst (λ g. Fitted b g t.outputs (step t (composition_ended b))) same ended,
        subst (λ g. Fitted b g t.outputs (step t (blurred b))) same blurs,
      )
