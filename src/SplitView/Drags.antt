-- ===== src/SplitView/Drags.antt =====
-- What a drag of a divider leaves as it is.
use oh_my_terminal.Base.{
  ◌≡◌, ◌∙◌, ap, String, none, some, List, [], ◌∷◌, false, All, refl, if_intro,
}
use oh_my_terminal.Base.Number.{Reals, Number}
use oh_my_terminal.PaneTree.Panes.{panes}
use oh_my_terminal.PaneTree.Ratio.{panes-set_ratio}
use oh_my_terminal.Layout.{LayoutState, change_ratio, commit}
use oh_my_terminal.Layout.Invariant.{IsValid, change_ratio-IsValid}
use oh_my_terminal.SplitView.{Divider, PointerEvent, down, ended, moved, on_move, step, run}

module _ {R : Type 0} where
  -- The layout is valid, and has the panes and the focus of the other.
  abbrev pub IsLike : LayoutState R → LayoutState R → Type 0
  IsLike l m = IsValid m × (panes m.root ≡ panes l.root) × (m.focused_pane_id ≡ l.focused_pane_id)

  abbrev pub IsNotDown : PointerEvent R → Type 0
  IsNotDown down = ⊥
  IsNotDown ended = Unit
  IsNotDown (moved _) = Unit

module _ {R : Type 0} ⦃r : Reals R⦄ (split_id : String) where
  change_ratio-IsLike :
      (ratio : Number R) (l : LayoutState R) → IsValid l → IsLike l (change_ratio split_id ratio l)
  unfolding change_ratio commit
  change_ratio-IsLike ratio l v = (
    change_ratio-IsValid l v split_id ratio,
    panes-set_ratio split_id ratio l.root_ref ∙ ap panes v.mirrored,
    refl,
  )

  step-IsLike :
      (s : Divider R) (e : PointerEvent R)
      → IsValid s.layout
      → IsLike s.layout (step split_id s e).layout
  unfolding step on_move
  step-IsLike s down v = (v, refl, refl)
  step-IsLike s (moved none) v =
      if_intro (λ t. IsLike s.layout t.layout) s.dragging s s (λ _. (v, refl, refl))
        (λ _. (v, refl, refl))
  step-IsLike s (moved (some ratio)) v =
      if_intro (λ t. IsLike s.layout t.layout) s.dragging _ s
        (λ _. change_ratio-IsLike ratio s.layout v) (λ _. (v, refl, refl))
  step-IsLike s ended v =
      if_intro (λ t. IsLike s.layout t.layout) s.dragging _ s (λ _. (v, refl, refl))
        (λ _. (v, refl, refl))

  run-IsLike :
      (es : List (PointerEvent R)) (s : Divider R)
      → IsValid s.layout
      → IsLike s.layout (run split_id s es).layout
  unfolding run
  run-IsLike [] s v = (v, refl, refl)
  run-IsLike (e ∷ es) s v =
      let (v', p, q) = step-IsLike s e v in
      let (w, p', q') = run-IsLike es (step split_id s e) v' in (w, p' ∙ p, q' ∙ q)

  -- Without a pointer down nothing is dragged.
  run-idle :
      (es : List (PointerEvent R)) (s : Divider R)
      → s.dragging ≡ false
      → All IsNotDown es
      → run split_id s es ≡ s
  unfolding run step
  run-idle [] s d a = refl
  run-idle (moved ratio ∷ es) s d a = ap (λ t. run split_id t es) (rw d refl) ∙ run-idle es s d a.1
  run-idle (ended ∷ es) s d a = ap (λ t. run split_id t es) (rw d refl) ∙ run-idle es s d a.1
  run-idle (down ∷ es) s d a = absurd a.0

  -- In a valid layout, whatever the pointer does to a divider, the layout stays valid, with the same
  -- panes in the same order, the same sessions in them and the same focus; and if the divider is not
  -- being dragged and the pointer does not go down on it, the layout is as before.
  pub run-drags :
      (es : List (PointerEvent R)) (s : Divider R)
      → IsValid s.layout
      → let t = run split_id s es in
        IsValid t.layout
        × (panes t.layout.root ≡ panes s.layout.root)
        × (t.layout.focused_pane_id ≡ s.layout.focused_pane_id)
        × (s.dragging ≡ false → All IsNotDown es → t.layout ≡ s.layout)
  run-drags es s v =
      let (w, p, q) = run-IsLike es s v in (w, p, q, λ d a. ap (λ t. t.layout) (run-idle es s d a))
