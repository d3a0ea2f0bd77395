-- ===== src/PaneTree/Ratio.antt =====
-- `setRatio`: a drag keeps a divider within its limits, and moves no pane.
use oh_my_terminal.Base.{
  ◌≤◌, ◌≡◌, String, true, List, [], ◌∷◌, ◌++◌, map, arith, refl, ite, String-discrete, inl, inr,
}
use mathlib.Core.List.{map-append}
use oh_my_terminal.Base.Number.{Reals, Number, nan, num}
use oh_my_terminal.PaneTree.{PaneNode, leaf, split, clamp_ratio, ratio_walk, set_ratio}
use oh_my_terminal.PaneTree.Panes.{panes, count_leaf, count_split, count_session, IsDistinct}

module _ {R : Type 0} ⦃r : Reals R⦄ where
  -- A ratio between the two limits of a drag.
  abbrev pub InLimits : Number R → Type 0
  InLimits nan = ⊥
  InLimits (num a) = (r.le r.tenth a ≡ true) × (r.le a r.nine_tenths ≡ true)

  -- A clamped ratio is within the limits, unless it is NaN.
  clamp_ratio-InLimits : (a : R) → InLimits (clamp_ratio (num a))
  unfolding clamp_ratio
  clamp_ratio-InLimits a = elim (r.le_total r.tenth a) [
    | inl p ↦
        ground (arith, r.le_total r.nine_tenths a, r.le_refl r.nine_tenths, r.tenth_le_nine_tenths)
    | inr p ↦ ground (
      arith,
      r.le_total r.nine_tenths a,
      r.le_refl r.tenth,
      r.le_refl r.nine_tenths,
      r.tenth_le_nine_tenths,
    )
  ]

-- The dividers of a tree, in order, and what a drag of one makes of each.
abbrev pub Divider : Type 0 → Type 0
Divider A = String × A

abbrev pub drag : {A : Type 0} → String → A → Divider A → Divider A
drag id x (i, y) = (i, ite (String-discrete i id) x y)

module _ {A : Type 0} where
  pub dividers : PaneNode A → List (Divider A)
  dividers (leaf i s) = []
  dividers (split i d x a b) = (i, x) ∷ (dividers a ++ dividers b)

  drag_absent :
      (id : String) (x : A) (t : PaneNode A)
      → count_split id t ≡ 0
      → map (drag id x) (dividers t) ≡ dividers t
  unfolding dividers count_split
  drag_absent id x (leaf i s) e = refl
  drag_absent id x (split i d y a b) e = ground (
    arith,
    drag_absent id x a,
    drag_absent id x b,
    map-append (drag id x) (dividers a) (dividers b),
  )

module _ {R : Type 0} ⦃r : Reals R⦄ where
  dividers-ratio_walk :
      (id : String) (x : Number R) (t : PaneNode (Number R))
      → count_split id t ≤ 1
      → dividers (ratio_walk t id x) ≡ map (drag id x) (dividers t)
  unfolding ratio_walk dividers count_split
  dividers-ratio_walk id x (leaf i s) e = refl
  dividers-ratio_walk id x (split i d y a b) e = ground (
    arith,
    dividers-ratio_walk id x a,
    dividers-ratio_walk id x b,
    drag_absent id x a,
    drag_absent id x b,
    map-append (drag id x) (dividers a) (dividers b),
  )

  -- In a tree without repeated ids, `setRatio` sets the clamped ratio at the divider with the id
  -- and leaves the other dividers as they are.
  dividers-set_ratio :
      (id : String) (x : Number R) (t : PaneNode (Number R))
      → IsDistinct t
      → dividers (set_ratio t id x) ≡ map (drag id (clamp_ratio x)) (dividers t)
  unfolding set_ratio
  dividers-set_ratio id x t u = dividers-ratio_walk id (clamp_ratio x) t (omega (arith, u id))

  panes-ratio_walk :
      (id : String) (x : Number R) (t : PaneNode (Number R)) → panes (ratio_walk t id x) ≡ panes t
  unfolding ratio_walk panes
  panes-ratio_walk id x (leaf i s) = refl
  panes-ratio_walk id x (split i d y a b) =
      ground (arith, panes-ratio_walk id x a, panes-ratio_walk id x b)

  count-ratio_walk :
      (j id : String) (x : Number R) (t : PaneNode (Number R))
      → (count_leaf j (ratio_walk t id x) ≡ count_leaf j t)
        × (count_split j (ratio_walk t id x) ≡ count_split j t)
  unfolding ratio_walk count_leaf count_split
  count-ratio_walk j id x (leaf i s) = (refl, refl)
  count-ratio_walk j id x (split i d y a b) =
      ground (arith, count-ratio_walk j id x a, count-ratio_walk j id x b)

  count_session-ratio_walk :
      (j id : String) (x : Number R) (t : PaneNode (Number R))
      → count_session j (ratio_walk t id x) ≡ count_session j t
  unfolding ratio_walk count_session
  count_session-ratio_walk j id x (leaf i s) = refl
  count_session-ratio_walk j id x (split i d y a b) =
      ground (arith, count_session-ratio_walk j id x a, count_session-ratio_walk j id x b)

  pub panes-set_ratio :
      (id : String) (x : Number R) (t : PaneNode (Number R)) → panes (set_ratio t id x) ≡ panes t
  unfolding set_ratio
  panes-set_ratio id x t = panes-ratio_walk id (clamp_ratio x) t

  pub count-set_ratio :
      (j id : String) (x : Number R) (t : PaneNode (Number R))
      → (count_leaf j (set_ratio t id x) ≡ count_leaf j t)
        × (count_split j (set_ratio t id x) ≡ count_split j t)
        × (count_session j (set_ratio t id x) ≡ count_session j t)
  unfolding set_ratio
  count-set_ratio j id x t =
      let (leaves, splits) = count-ratio_walk j id (clamp_ratio x) t in
      (leaves, splits, count_session-ratio_walk j id (clamp_ratio x) t)
