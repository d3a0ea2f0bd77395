-- ===== src/Layout/Invariant.antt =====
-- The invariant of the layout: the states and refs agree, the focus is on a pane of the tree, ids
-- are distinct, and a session is shown in one pane at most.
use oh_my_terminal.Base.{
  ◌≤◌, ◌≡◌, ◌≢◌, sym, subst, inl, inr, String, Option, none, some, Bool, true, false, ite,
  String-discrete, refl, Option-cases,
}
use native.Mathlib.Nat.{le_trans}
use oh_my_terminal.Base.Number.{Reals, Number}
use oh_my_terminal.PaneTree.{
  PaneNode, SplitDir, placed_session_ids, remove_node, remove_session, set_leaf_session,
}
use oh_my_terminal.PaneTree.Panes.{
  count_leaf, absent, present, find_leaf-Found, count_leaf-first_leaf_id,
}
use oh_my_terminal.PaneTree.Edits.{count_leaf-split_leaf}
use oh_my_terminal.PaneTree.Ratio.{count-set_ratio}
use oh_my_terminal.PaneTree.Sessions.{count_leaf-remove_session}
use oh_my_terminal.Layout.Tidy.{
  IsTidy, remove_session-IsTidy, assign-IsTidy, count_leaf-assign, or_leaf-IsTidy, refocus, Walked,
  missed, hit, found_walk-Walked, IsNew, split-IsTidy, ratio-IsTidy,
}
use oh_my_terminal.Layout.Parse.{parse_layout}
use oh_my_terminal.Layout.{
  LayoutState, commit, is_found, has_pane, focus_pane, assign_session, or_leaf, close_pane,
  unplace_session, found_walk, focus_session, split_pane, change_ratio, put_parsed, restore,
  put_saved, save, lose,
}

module _ {R : Type 0} where
  pub record IsValid (s : LayoutState R) : Type 0 where
    pub mirrored : s.root_ref ≡ s.root
    pub placed_all : s.placed ≡ placed_session_ids s.root
    pub focus : 1 ≤ count_leaf s.focused_pane_id s.root
    pub tidy : IsTidy s.root

  -- A commit of a tidy tree, and a focus on a pane of it, give a valid state.
  commit-IsValid :
      (next : PaneNode (Number R)) (s : LayoutState R) (p : String)
      → IsTidy next
      → 1 ≤ count_leaf p next
      → IsValid (focus_pane p (commit next s))
  unfolding focus_pane commit
  commit-IsValid next s p t f = record { mirrored = refl; placed_all = refl; focus = f; tidy = t }

  module _ (s : LayoutState R) (v : IsValid s) where
    pub root_ref-IsTidy : IsTidy s.root_ref
    root_ref-IsTidy = subst IsTidy (sym v.mirrored) v.tidy

    pub focus_ref : 1 ≤ count_leaf s.focused_pane_id s.root_ref
    focus_ref = rw v.mirrored v.focus

    pub shown_IsValid : (p : String) → 1 ≤ count_leaf p s.root_ref → IsValid (focus_pane p s)
    unfolding focus_pane
    shown_IsValid p h = record {
      mirrored = v.mirrored;
      placed_all = v.placed_all;
      focus = subst (λ t. 1 ≤ count_leaf p t) v.mirrored h;
      tidy = v.tidy;
    }

    pane_of_Walked :
        (tm found : String)
        → Walked tm s.root_ref "" found
        → found ≢ ""
        → 1 ≤ count_leaf found s.root_ref
    pane_of_Walked tm found (missed _ e) h = absurd (h e)
    pane_of_Walked tm found (hit _ k) h = k

    found-IsValid :
        (tm found : String)
        → Walked tm s.root_ref "" found
        → IsValid
            (ite {C = LayoutState R × Bool}
              (String-discrete found "")
              (s, false)
              (focus_pane found s, true)).0
    found-IsValid tm found w =
        elim (String-discrete found "")
          as (λ d.
            IsValid (ite {C = LayoutState R × Bool} d (s, false) (focus_pane found s, true)).0) [
              | yes p ↦ v
              | no p ↦ shown_IsValid found (pane_of_Walked tm found w p)
            ]

    pub focus_session-IsValid : (tm : String) → IsValid (focus_session tm s).0
    unfolding focus_session
    focus_session-IsValid tm =
        found-IsValid tm (found_walk tm s.root_ref "") (found_walk-Walked tm s.root_ref "")

    pub assign_session-IsValid : (p tm : String) → IsValid (assign_session p tm s)
    unfolding assign_session has_pane is_found
    assign_session-IsValid p tm = elim (find_leaf-Found p s.root_ref) [
      | absent e _ ↦ rw e v
      | present _ e h ↦ rw e (
          commit-IsValid (set_leaf_session (remove_session s.root_ref tm) p (some tm)) s p
            (assign-IsTidy p tm s.root_ref root_ref-IsTidy)
            (rw (count_leaf-assign p p tm s.root_ref root_ref-IsTidy) h))
    ]

    pub close_pane-IsValid : (p new_id : String) → IsValid (close_pane p new_id s)
    unfolding close_pane commit
    close_pane-IsValid p new_id =
        let next : PaneNode (Number R) = or_leaf new_id (remove_node s.root_ref p) in
        record {
          mirrored = refl;
          placed_all = refl;
          focus = refocus next s.focused_pane_id;
          tidy = or_leaf-IsTidy p new_id s.root_ref (remove_node s.root_ref p) refl root_ref-IsTidy;
        }

    pub unplace_session-IsValid : (tm : String) → IsValid (unplace_session tm s)
    unfolding unplace_session commit
    unplace_session-IsValid tm = record {
      mirrored = refl;
      placed_all = refl;
      focus = rw (count_leaf-remove_session s.focused_pane_id tm s.root_ref) focus_ref;
      tidy = remove_session-IsTidy tm s.root_ref root_ref-IsTidy;
    }

module _ {R : Type 0} ⦃r : Reals R⦄ (s : LayoutState R) (v : IsValid s) where
  pub split_pane-IsValid :
      (p : String) (dir : SplitDir) (split_id new_id : String)
      → IsNew s.root split_id new_id
      → IsValid (split_pane p dir split_id new_id s)
  unfolding split_pane commit
  split_pane-IsValid p dir split_id new_id n = record {
    mirrored = refl;
    placed_all = refl;
    focus = le_trans (focus_ref s v) (
        count_leaf-split_leaf s.focused_pane_id s.root_ref p dir split_id new_id
          (root_ref-IsTidy s v).distinct);
    tidy =
        split-IsTidy p dir split_id new_id s.root_ref
          (subst (λ t. IsNew t split_id new_id) (sym v.mirrored) n) (root_ref-IsTidy s v);
  }

  pub change_ratio-IsValid : (id : String) (x : Number R) → IsValid (change_ratio id x s)
  unfolding change_ratio commit
  change_ratio-IsValid id x = record {
    mirrored = refl;
    placed_all = refl;
    focus = rw ((count-set_ratio s.focused_pane_id id x s.root_ref).0) (focus_ref s v);
    tidy = ratio-IsTidy id x s.root_ref (root_ref-IsTidy s v);
  }

  pub restore-IsValid :
      (cancelled : Bool)
      → ((t : PaneNode (Number R)) → parse_layout s.server ≡ some t → IsTidy t)
      → IsValid (restore cancelled s)
  unfolding restore put_parsed
  restore-IsValid true h = v
  restore-IsValid false h = elim (Option-cases (parse_layout s.server)) [
    | inl e ↦ rw e v
    | inr (t, e) ↦ rw e (record {
      mirrored = refl;
      placed_all = refl;
      focus = count_leaf-first_leaf_id t;
      tidy = h t e;
    })
  ]

  pub save-IsValid : IsValid (save s)
  unfolding save put_saved
  save-IsValid = go s.save_timer
    where
      go : (o : Option (PaneNode (Number R))) → IsValid (put_saved s o)
      go none = v
      go (some t) = record {
        mirrored = v.mirrored;
        placed_all = v.placed_all;
        focus = v.focus;
        tidy = v.tidy;
      }

  pub lose-IsValid : IsValid (lose s)
  unfolding lose
  lose-IsValid = record {
    mirrored = v.mirrored;
    placed_all = v.placed_all;
    focus = v.focus;
    tidy = v.tidy;
  }
