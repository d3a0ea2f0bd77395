-- ===== src/App/Selecting.antt =====
-- Terminals of the sidebar and of the pickers, from a click to the pane that shows them.
use oh_my_terminal.Base.{
  ◌≤◌, ◌≡◌, String, some, Bool, true, false, Bool-cases, inl, inr, refl, ap, sym, subst,
}
use oh_my_terminal.PaneTree.Panes.{count_session}
use oh_my_terminal.PaneTree.Shows.{Shows}
use native.Mathlib.Nat.{le_trans}
use oh_my_terminal.Layout.{LayoutState, assign_session, focus_pane, has_pane}
use oh_my_terminal.Layout.Invariant.{IsValid, focus_session-IsValid, assign_session-IsValid}
use oh_my_terminal.Layout.Focus.{
  not_found, found_at, focus_session-Focused, assign_session-Shows, has_pane-focused,
}
use oh_my_terminal.Workspaces.Known.{
  IsKnown, count_workspace, count_terminal, count_terminal-add_new,
}
use oh_my_terminal.Workspaces.Handlers.{Handling-IsKnown, then_one, done, added}
use oh_my_terminal.Workspaces.{handle_add_terminal, answered, Terminal, Workspace}
use oh_my_terminal.Workspaces.Sessions.{last_session, map_get-sessions}
use oh_my_terminal.App.{
  create_terminal_in_pane, notify, AppState, show_terminal, select_terminal, focused_session_id,
  active_session, leaf_session, session_at,
}

module _ {R : Type 0} where
  -- After `show_terminal` the pane with the focus shows the session.
  show_terminal-Shows :
      (tm : String) (l : LayoutState R)
      → IsValid l
      → let t = show_terminal tm l in IsValid t × Shows t.focused_pane_id tm t.root
  unfolding show_terminal focus_pane
  show_terminal-Shows tm l v = elim (focus_session-Focused tm l v) [
    | not_found e ↦
        let (shown, here) = assign_session-Shows l.focused_pane_id tm l v (has_pane-focused l v) in
        rw e (
          assign_session-IsValid l v l.focused_pane_id tm,
          subst (λ p. Shows p tm (assign_session l.focused_pane_id tm l).root) (sym here) shown,
        )
    | found_at p e q ↦ rw e (subst (λ x. IsValid x.0) e (focus_session-IsValid l v tm), q)
  ]

  -- In a valid layout, selecting a terminal keeps the layout valid, the pane with the focus then
  -- shows the session, and the active session is that of the last terminal with the id, in the order
  -- of the sidebar.
  pub select_terminal-shows :
      (mobile : Bool) (ws : Workspace) (tm : Terminal) (s : AppState R)
      → IsValid s.hook.layout
      → let t = select_terminal mobile ws tm s in
        IsValid t.hook.layout
        × (focused_session_id t ≡ some tm.id)
        × (active_session t ≡ last_session tm.id s.hook.workspaces)
  unfolding select_terminal focused_session_id active_session session_at
  select_terminal-shows mobile ws tm s v =
      let (valid, shown) = show_terminal-Shows tm.id s.hook.layout v in
      let focused : focused_session_id (select_terminal mobile ws tm s) ≡ some tm.id =
        ap leaf_session shown in
      (valid, focused, rw focused (map_get-sessions tm.id s.hook.workspaces))

module _ {R : Type 0} (s : AppState R) (v : IsValid s.hook.layout) (k : IsKnown s.hook) where
  hooked-IsKnown :
      (pane_id ws_id : String) (tm : Terminal)
      → 1 ≤ count_workspace ws_id s.hook.workspaces
      → let t = handle_add_terminal ws_id pane_id (answered tm) s.hook in
        IsValid t.layout × IsKnown t
  hooked-IsKnown pane_id ws_id tm e =
      Handling-IsKnown (then_one done (added ws_id pane_id (answered tm) e)) v k

  absent_pane :
      (p tm : String)
      → has_pane p s.hook.layout ≡ false
      → assign_session p tm s.hook.layout ≡ s.hook.layout
  unfolding assign_session
  absent_pane p tm e = rw e refl

  -- In a valid layout whose sessions are terminals of the workspaces, when the server has created a
  -- terminal for a pane, in a workspace that is there, the layout stays valid and its sessions known,
  -- and the terminal is in the workspaces. If the pane is still there, it shows the terminal and has
  -- the focus; if it has been closed meanwhile, the layout is as before.
  pub create_terminal_in_pane-placed :
      (pane_id ws_id : String) (tm : Terminal)
      → 1 ≤ count_workspace ws_id s.hook.workspaces
      → let t = (create_terminal_in_pane pane_id ws_id (answered tm) s).hook in
        IsValid t.layout
        × IsKnown t
        × (1 ≤ count_terminal tm.id t.workspaces)
        × (has_pane pane_id s.hook.layout ≡ true
            → Shows pane_id tm.id t.layout.root × (t.layout.focused_pane_id ≡ pane_id))
        × (has_pane pane_id s.hook.layout ≡ false → t.layout ≡ s.hook.layout)
  unfolding create_terminal_in_pane notify handle_add_terminal
  create_terminal_in_pane-placed pane_id ws_id tm e =
      let (valid, known) = hooked-IsKnown pane_id ws_id tm e in
      elim (Bool-cases (has_pane pane_id s.hook.layout)) [
        | inl h ↦ rw h (
          valid,
          known,
          le_trans e (count_terminal-add_new ws_id tm s.hook.workspaces),
          λ _. assign_session-Shows pane_id tm.id s.hook.layout v h,
          λ g. absurd (cc g),
        )
        | inr h ↦
            let same = absent_pane pane_id tm.id h in
            rw h (
              subst IsValid same valid,
              λ id x. known id (subst (λ l. 1 ≤ count_session id l.root) (sym same) x),
              le_trans e (count_terminal-add_new ws_id tm s.hook.workspaces),
              λ g. absurd (cc g),
              λ _. refl,
            )
      ]
