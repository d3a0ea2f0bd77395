-- ===== src/Layout/Runs.antt =====
-- Any run of the layout: its states are valid, and a save followed by a reload gives the tree back.
use oh_my_terminal.Base.{
  ◌≤◌, ◌≡◌, String, Option, none, some, Bool, true, false, refl, inl, inr, sym, subst, ◌∙◌,
  eq_of_some, Bool-cases, String-discrete, ite,
}
use oh_my_terminal.Base.Number.{Reals, Number}
use oh_my_terminal.PaneTree.{PaneNode, first_leaf_id, leaf, placed_session_ids}
use oh_my_terminal.PaneTree.Panes.{count_leaf, count_leaf-first_leaf_id}
use oh_my_terminal.Json.{Json}
use oh_my_terminal.Layout.Parse.{parse_layout}
use oh_my_terminal.Layout.RoundTrip.{repair, repair-IsTidy, parse_layout-to_json}
use oh_my_terminal.Layout.Tidy.{IsTidy, IsNew, leaf-IsTidy}
use oh_my_terminal.Layout.Invariant.{
  IsValid, focus_session-IsValid, assign_session-IsValid, close_pane-IsValid,
  unplace_session-IsValid, shown_IsValid, split_pane-IsValid, change_ratio-IsValid, restore-IsValid,
  save-IsValid, lose-IsValid,
}
use oh_my_terminal.Layout.{
  LayoutState, init, put_saved, save, lose, restore, put_parsed, Action, focused, assigned, divided,
  closed, dragged, unplaced, shown, restored, saved, lost, act, close_pane, commit, persist,
  focus_pane, assign_session, split_pane, change_ratio, unplace_session, has_pane, focus_session,
  found_walk,
}

module _ {R : Type 0} ⦃r : Reals R⦄ where
  -- What the user interface sees to: the focus goes to a pane of the tree, and new ids are new.
  abbrev pub Allowed : LayoutState R → Action R → Type 0
  Allowed s (focused p) = 1 ≤ count_leaf p s.root
  Allowed s (divided p dir split_id new_id) = IsNew s.root split_id new_id
  Allowed s _ = Unit

  -- A blob is a tidy tree, if it is a tree.
  abbrev pub IsTidyBlob : Json R → Type 0
  IsTidyBlob blob = (t : PaneNode (Number R)) → parse_layout blob ≡ some t → IsTidy t

  -- So are the tree that is to be saved and the blob that the server keeps.
  record IsStored (s : LayoutState R) : Type 0 where
    pending : (t : PaneNode (Number R)) → s.save_timer ≡ some t → IsTidy t
    stored : IsTidyBlob s.server

  act-IsValid :
      (s : LayoutState R) (a : Action R) → IsValid s → IsStored s → Allowed s a → IsValid (act s a)
  unfolding act
  act-IsValid s (focused p) v w h =
      shown_IsValid s v p (subst (λ t. 1 ≤ count_leaf p t) (sym v.mirrored) h)
  act-IsValid s (assigned p tm) v w h = assign_session-IsValid s v p tm
  act-IsValid s (divided p dir i j) v w h = split_pane-IsValid s v p dir i j h
  act-IsValid s (closed p new_id) v w h = close_pane-IsValid s v p new_id
  act-IsValid s (dragged i x) v w h = change_ratio-IsValid s v i x
  act-IsValid s (unplaced tm) v w h = unplace_session-IsValid s v tm
  act-IsValid s (shown tm) v w h = focus_session-IsValid s v tm
  act-IsValid s (restored cancelled) v w h = restore-IsValid s v cancelled w.stored
  act-IsValid s saved v w h = save-IsValid s v
  act-IsValid s lost v w h = lose-IsValid s v

  -- A run in which every action is allowed where it happens.
  pub data Run (s : LayoutState R) : LayoutState R → Type 0 where
    here : Run s s
    next : {t : LayoutState R} → Run s t → (a : Action R) → Allowed t a → Run s (act t a)

  pub init-IsValid : (new_id : String) (server : Json R) → IsValid (init new_id server)
  unfolding init placed_session_ids
  init-IsValid new_id server = record {
    mirrored = refl;
    placed_all = refl;
    focus = count_leaf-first_leaf_id (leaf new_id none);
    tidy = leaf-IsTidy new_id;
  }

  -- The actions that change the tree.
  abbrev pub Commits : LayoutState R → Action R → Type 0
  Commits s (focused _) = ⊥
  Commits s (assigned p tm) = has_pane p s ≡ true
  Commits s (divided _ _ _ _) = Unit
  Commits s (closed _ _) = Unit
  Commits s (dragged _ _) = Unit
  Commits s (unplaced _) = Unit
  Commits s (shown _) = ⊥
  Commits s (restored _) = ⊥
  Commits s saved = ⊥
  Commits s lost = ⊥

  act-Commits :
      (s : LayoutState R) (a : Action R) → Commits s a → (act s a).save_timer ≡ some (act s a).root
  unfolding act commit persist focus_pane assign_session close_pane split_pane change_ratio
      unplace_session
  act-Commits s (assigned p tm) c = rw c
  act-Commits s (divided _ _ _ _) c = refl
  act-Commits s (closed _ _) c = refl
  act-Commits s (dragged _ _) c = refl
  act-Commits s (unplaced _) c = refl
  act-Commits s a c = elim c [ ]

  -- An action that changes the tree leaves the server alone, and pends the new tree.
  commit-IsStored :
      (s : LayoutState R) (a : Action R)
      → Commits s a
      → (act s a).server ≡ s.server
      → IsValid (act s a)
      → IsStored s
      → IsStored (act s a)
  commit-IsStored s a c e v w = record {
    pending = λ t p. subst IsTidy (eq_of_some (sym (act-Commits s a c) ∙ p)) v.tidy;
    stored = rw e w.stored;
  }

  put_saved-IsStored :
      (s : LayoutState R) (o : Option (PaneNode (Number R)))
      → s.save_timer ≡ o
      → IsStored s
      → IsStored (put_saved s o)
  unfolding put_saved
  put_saved-IsStored s none e w = w
  put_saved-IsStored s (some t) e w = record {
    pending = λ x p. cc;
    stored = λ x p.
        subst IsTidy (eq_of_some (sym (parse_layout-to_json t) ∙ p))
          (repair-IsTidy t (w.pending t e));
  }

  put_parsed-IsStored :
      (s : LayoutState R) (o : Option (PaneNode (Number R)))
      → IsStored s
      → IsStored (put_parsed s o)
  unfolding put_parsed
  put_parsed-IsStored s none w = w
  put_parsed-IsStored s (some t) w = record { pending = w.pending; stored = w.stored }

  act-IsStored :
      (s : LayoutState R) (a : Action R) → IsValid (act s a) → IsStored s → IsStored (act s a)
  unfolding act commit persist focus_pane assign_session close_pane split_pane change_ratio
      unplace_session save lose restore focus_session
  act-IsStored s (focused p) v w = record { pending = w.pending; stored = w.stored }
  act-IsStored s (assigned p tm) v w = elim (Bool-cases (has_pane p s)) [
    | inl e ↦ commit-IsStored s (assigned p tm) e (rw e) v w
    | inr e ↦ rw e w
  ]
  act-IsStored s (divided p d i j) v w = commit-IsStored s (divided p d i j) tt refl v w
  act-IsStored s (closed p i) v w = commit-IsStored s (closed p i) tt refl v w
  act-IsStored s (dragged i x) v w = commit-IsStored s (dragged i x) tt refl v w
  act-IsStored s (unplaced tm) v w = commit-IsStored s (unplaced tm) tt refl v w
  act-IsStored s (shown tm) v w =
      elim (String-discrete (found_walk tm s.root_ref "") "")
        as (λ d.
          IsStored
            (ite {C = LayoutState R × Bool} d (s, false)
              (record s { focused_pane_id = found_walk tm s.root_ref "" }, true)).0) [
                | yes p ↦ w
                | no p ↦ record { pending = w.pending; stored = w.stored }
              ]
  act-IsStored s (restored true) v w = w
  act-IsStored s (restored false) v w = put_parsed-IsStored s (parse_layout s.server) w
  act-IsStored s saved v w = put_saved-IsStored s s.save_timer refl w
  act-IsStored s lost v w = record { pending = λ t p. cc; stored = w.stored }

  Run-both :
      (new_id : String) (server : Json R) (s : LayoutState R)
      → IsTidyBlob server
      → Run (init new_id server) s
      → IsValid s × IsStored s
  unfolding init
  Run-both new_id server s b here =
      (init-IsValid new_id server, record { pending = λ t p. cc; stored = b })
  Run-both new_id server s b (next {t} r a h) =
      let (v, w) = Run-both new_id server t b r in
      let v' = act-IsValid t a v w h in (v', act-IsStored t a v' w)

  -- After any run of actions from the first state, in which focus goes to panes of the tree and new
  -- ids are new, and which starts with a blob on the server that is a tidy tree if it is a tree: the
  -- refs and the states agree, the placed sessions are those of the tree, the focus is on a pane of
  -- the tree, no two nodes share an id, and no session is shown in two panes.
  pub Run-IsValid :
      (new_id : String) (server : Json R) (s : LayoutState R)
      → IsTidyBlob server
      → Run (init new_id server) s
      → IsValid s
  Run-IsValid new_id server s b r = (Run-both new_id server s b r).0

  -- After an action that changes the tree, once the pending save is done, a client that starts
  -- anew and restores the layout shows the same tree, with the ratios that JSON cannot hold set to
  -- the default, and has the focus on its first pane.
  pub restore-save :
      (s : LayoutState R) (a : Action R) (new_id : String)
      → Commits s a
      → let reloaded = restore false (init new_id (save (act s a)).server) in
        (reloaded.root ≡ repair (act s a).root)
        × (reloaded.root_ref ≡ repair (act s a).root)
        × (reloaded.focused_pane_id ≡ first_leaf_id (repair (act s a).root))
  unfolding restore put_parsed save put_saved init
  restore-save s a new_id c =
      rw (act-Commits s a c, parse_layout-to_json (act s a).root) (refl, refl, refl)
