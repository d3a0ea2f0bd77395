-- ===== src/SplitView/Offers.antt =====
-- What an empty pane offers, and what picking it does.
use oh_my_terminal.Base.{
  ℕ, ◌+◌, ◌≤◌, ◌≡◌, ◌∙◌, sym, ap, String, String-discrete, some, List, [], ◌∷◌, arith, refl,
  if◌then◌else◌,
}
use oh_my_terminal.PaneTree.{
  leaf, split, remove_session, set_leaf_session, PaneNode, set_has, placed_session_ids,
}
use oh_my_terminal.PaneTree.Panes.{
  pane, panes, expand, count_session, count_leaf, absent, present, find_leaf-Found,
}
use oh_my_terminal.PaneTree.Replace.{expand_absent, count_pane-panes, panes-set_leaf_session}
use oh_my_terminal.PaneTree.Sessions.{placed_session_ids_iff}
use oh_my_terminal.Layout.{LayoutState, assign_session, has_pane, is_found, commit, focus_pane}
use oh_my_terminal.Layout.Invariant.{IsValid}
use oh_my_terminal.Workspaces.{Terminal, Workspace}
use oh_my_terminal.Workspaces.Known.{count_in_list, count_terminal}
use oh_my_terminal.SplitView.{free_terminals, add_group, available}

-- How many of the offered terminals have the id.
unfoldable pub count_offered : String → List (Workspace × List Terminal) → ℕ
count_offered id [] = 0
count_offered id (g ∷ gs) = count_in_list id g.1 + count_offered id gs

count_in_list-free :
    (id : String) (placed : List String) (tms : List Terminal)
    → count_in_list id (free_terminals placed tms)
      ≡ (if set_has placed id then 0 else count_in_list id tms)
unfolding count_in_list free_terminals
count_in_list-free id placed [] = ground arith
count_in_list-free id placed (tm ∷ tms) = elim (String-discrete tm.id id) [
  | yes p ↦ ground (arith, count_in_list-free id placed tms, ap (set_has placed) p)
  | no p ↦ ground (arith, count_in_list-free id placed tms)
]

count_offered-add_group :
    (id : String) (ws : Workspace) (tms : List Terminal) (gs : List (Workspace × List Terminal))
    → count_offered id (add_group ws tms gs) ≡ count_in_list id tms + count_offered id gs
unfolding count_offered add_group count_in_list
count_offered-add_group id ws [] gs = omega arith
count_offered-add_group id ws (tm ∷ tms) gs = refl

-- An empty pane offers exactly the terminals that no pane shows, each as often as it is in the
-- workspaces.
pub count_offered-available :
    (id : String) (placed : List String) (wss : List Workspace)
    → count_offered id (available placed wss)
      ≡ (if set_has placed id then 0 else count_terminal id wss)
unfolding available count_offered count_terminal
count_offered-available id placed [] = ground arith
count_offered-available id placed (ws ∷ wss) = ground (
  arith,
  count_offered-available id placed wss,
  count_in_list-free id placed ws.terminals,
  count_offered-add_group id ws (free_terminals placed ws.terminals) (available placed wss),
)

remove_session_absent :
    {A : Type 0} (tm : String) (t : PaneNode A) → count_session tm t ≡ 0 → remove_session t tm ≡ t
unfolding remove_session count_session
remove_session_absent tm (leaf i o) e = ground arith
remove_session_absent tm (split i d r a b) e =
    ground (arith, remove_session_absent tm a, remove_session_absent tm b)

module _ {R : Type 0} (s : LayoutState R) (v : IsValid s) where
  -- An offered terminal is shown in no pane.
  offered_absent :
      (tm : String) (wss : List Workspace)
      → 1 ≤ count_offered tm (available s.placed wss)
      → count_session tm s.root ≡ 0
  offered_absent tm wss h =
      let seen = placed_session_ids_iff tm s.root in
      let known : set_has s.placed tm ≡ set_has (placed_session_ids s.root) tm =
        ap (λ p. set_has p tm) v.placed_all in
      ground (arith, count_offered-available tm s.placed wss)

  -- In a valid layout, picking a terminal that an empty pane offers shows it in the pane with the id,
  -- and changes no other pane.
  pub pick-panes :
      (p tm : String) (wss : List Workspace)
      → 1 ≤ count_offered tm (available s.placed wss)
      → panes (assign_session p tm s).root ≡ expand p (pane p (some tm) ∷ []) (panes s.root)
  unfolding assign_session has_pane is_found commit focus_pane
  pick-panes p tm wss h =
      let gone : remove_session s.root_ref tm ≡ s.root =
        ap (λ t. remove_session t tm) v.mirrored
        ∙ remove_session_absent tm s.root (offered_absent tm wss h) in
      elim (find_leaf-Found p s.root_ref) [
        | absent e n ↦ rw e (
            sym (
              expand_absent p (pane p (some tm) ∷ []) (panes s.root)
                (count_pane-panes p s.root ∙ ap (count_leaf p) (sym v.mirrored) ∙ n)))
        | present o e n ↦ rw e (
            ap (λ t. panes (set_leaf_session t p (some tm))) gone
            ∙ panes-set_leaf_session s.root p (some tm) v.tidy.distinct)
      ]
