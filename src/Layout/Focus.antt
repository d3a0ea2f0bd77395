-- ===== src/Layout/Focus.antt =====
-- The leaf that has the focus: `findLeaf` after `assignSession` and `focusSession`.
use oh_my_terminal.Base.{
  ◌≤◌, ◌≡◌, ◌∙◌, ap, subst, String, none, some, String-discrete, arith, refl, true, false, Bool,
  if_pos, if_neg,
}
use oh_my_terminal.Base.Number.{Number}
use oh_my_terminal.PaneTree.{PaneNode, leaf, split, find_leaf}
use oh_my_terminal.PaneTree.Panes.{
  count, count_leaf, count_split, count_session, IsDistinct, absent, present, find_leaf-Found,
}
use oh_my_terminal.PaneTree.Shows.{Shows, Shows-assign}
use oh_my_terminal.Layout.{
  LayoutState, found_walk, focus_session, focus_pane, has_pane, is_found, commit, assign_session,
}
use oh_my_terminal.Layout.Invariant.{IsValid, root_ref-IsTidy, focus_ref}

-- What the walk of `focusSession` returns is where it started, or a pane that shows the session.
module _ {R : Type 0} where
  data Reached (tm : String) (t : PaneNode (Number R)) (found res : String) : Type 0 where
    nowhere : res ≡ found → count_session tm t ≡ 0 → Reached tm t found res
    at_pane : Shows res tm t → 1 ≤ count_leaf res t → Reached tm t found res

  found_walk-Reached :
      (tm : String) (t : PaneNode (Number R)) (found : String)
      → IsDistinct t
      → Reached tm t found (found_walk tm t found)
  unfolding found_walk count_leaf count_session count_split find_leaf
  found_walk-Reached tm (leaf i none) found u = nowhere refl (ground arith)
  found_walk-Reached tm (leaf i (some x)) found u = elim (String-discrete x tm) [
    | yes p ↦ at_pane (ground arith) (ground arith)
    | no p ↦ nowhere (ground arith) (ground arith)
  ]
  found_walk-Reached tm (split i d r a b) found u =
      elim (found_walk-Reached tm a found (λ j. left j)) [
        | nowhere p n ↦ elim (found_walk-Reached tm b (found_walk tm a found) (λ j. right j)) [
          | nowhere q m ↦ nowhere (q ∙ p) (omega arith)
          | at_pane q m ↦
              at_pane (behind (found_walk tm b (found_walk tm a found)) q m) (omega arith)
        ]
        | at_pane p n ↦ elim (found_walk-Reached tm b (found_walk tm a found) (λ j. right j)) [
          | nowhere q m ↦ rw q (at_pane (before (found_walk tm a found) p) (omega arith))
          | at_pane q m ↦
              at_pane (behind (found_walk tm b (found_walk tm a found)) q m) (omega arith)
        ]
      ]
    where
      left : (j : String) → count j a ≤ 1
      left j = omega (arith, u j)

      right : (j : String) → count j b ≤ 1
      right j = omega (arith, u j)

      behind :
          (res : String) → Shows res tm b → 1 ≤ count_leaf res b → Shows res tm (split i d r a b)
      behind res q m = elim (find_leaf-Found res a) [
        | absent e z ↦ ground arith
        | present s e z ↦ absurd (omega (arith, u res))
      ]

      before : (res : String) → Shows res tm a → Shows res tm (split i d r a b)
      before res q = ground arith

  -- `focusSession` finds nothing and changes nothing, or gives a pane that shows the session the
  -- focus.
  pub data Focused (tm : String) (s : LayoutState R) (res : LayoutState R × Bool) : Type 0 where
    not_found : res ≡ (s, false) → Focused tm s res
    found_at : (p : String) → res ≡ (focus_pane p s, true) → Shows p tm s.root → Focused tm s res

  pub focus_session-Focused :
      (tm : String) (s : LayoutState R) → IsValid s → Focused tm s (focus_session tm s)
  unfolding focus_session
  focus_session-Focused tm s v = elim (String-discrete (found_walk tm s.root_ref "") "") [
    | yes p ↦ not_found (if_pos (String-discrete (found_walk tm s.root_ref "") "") p _ _)
    | no p ↦ elim (found_walk-Reached tm s.root_ref "" (root_ref-IsTidy s v).distinct) [
      | nowhere q m ↦ absurd (p q)
      | at_pane q m ↦
          found_at (found_walk tm s.root_ref "")
            (if_neg (String-discrete (found_walk tm s.root_ref "") "") p _ _)
            (subst (Shows (found_walk tm s.root_ref "") tm) v.mirrored q)
    ]
  ]

  -- In a valid layout, what `assignSession` puts into a pane of the tree is shown there, and the
  -- pane has the focus.
  pub assign_session-Shows :
      (p tm : String) (s : LayoutState R)
      → IsValid s
      → has_pane p s ≡ true
      → let t = assign_session p tm s in Shows p tm t.root × (t.focused_pane_id ≡ p)
  unfolding assign_session has_pane is_found commit focus_pane
  assign_session-Shows p tm s v there = elim (find_leaf-Found p s.root_ref) [
    | absent e n ↦ absurd (cc (ap is_found e, there))
    | present o e n ↦ rw e (Shows-assign p tm s.root_ref (root_ref-IsTidy s v).distinct n, refl)
  ]

  pub has_pane-focused : (s : LayoutState R) → IsValid s → has_pane s.focused_pane_id s ≡ true
  unfolding has_pane is_found
  has_pane-focused s v = elim (find_leaf-Found s.focused_pane_id s.root_ref) [
    | absent e n ↦ absurd (omega (arith, focus_ref s v))
    | present o e n ↦ rw e refl
  ]
