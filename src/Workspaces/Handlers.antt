-- ===== src/Workspaces/Handlers.antt =====
-- What the handlers do to the workspaces and to the layout together.
use oh_my_terminal.Base.{
  ◌≤◌, ◌≡◌, ◌≢◌, subst, String, List, [], ◌∷◌, String-discrete, Bool, true, false, arith, refl,
  Bool-cases, inl, inr, ℕ_discrete,
}
use oh_my_terminal.PaneTree.Panes.{count_session}
use oh_my_terminal.PaneTree.Sessions.{count_session-assign_ne}
use oh_my_terminal.Layout.{assign_session, commit, focus_pane, has_pane}
use oh_my_terminal.Layout.Invariant.{IsValid, assign_session-IsValid, unplace_session-IsValid}
use oh_my_terminal.Workspaces.{
  Terminal, Workspace, State, Answer, failed, answered, add_terminal, put_terminal, rename_in,
  toggle_expanded, handle_add_terminal, handle_delete_workspace, handle_delete_terminal,
  handle_rename_terminal, handle_rename_workspace, put_workspace, load,
}
use oh_my_terminal.Workspaces.Known.{
  count_in_list, count_terminal, count_within, count_workspace, IsKnown, unplaced, unplaced_all,
  unplace_all-IsValid, count_terminal-add_terminal, count_terminal-add_new,
  count_terminal-drop_terminal, count_terminal-drop_workspace,
}

module _ {R : Type 0} (s : State R) (v : IsValid s.layout) where
  assigned :
      (p tm id : String)
      → tm ≢ id
      → count_session id (assign_session p tm s.layout).root ≤ count_session id s.layout.root
  unfolding assign_session commit focus_pane
  assigned p tm id n = elim (Bool-cases (has_pane p s.layout)) [
    | inl e ↦ rw (e, v.mirrored) (count_session-assign_ne s.layout.root p tm id v.tidy.distinct n)
    | inr e ↦ rw e (omega arith)
  ]

  -- In a valid layout, when the server has deleted a terminal, and no other workspace has one with its
  -- id, then no workspace has a terminal with the id and no pane shows it; every other terminal is in
  -- the workspaces and in the panes as often as before.
  pub delete_terminal-gone :
      (ws : Workspace) (tm : Terminal)
      → count_within ws.id tm.id s.workspaces ≡ count_terminal tm.id s.workspaces
      → let t = handle_delete_terminal ws tm true (answered tt) s in
        (count_terminal tm.id t.workspaces ≡ 0)
        × (count_session tm.id t.layout.root ≡ 0)
        × ((id : String)
            → tm.id ≢ id
            → (count_terminal id t.workspaces ≡ count_terminal id s.workspaces)
              × (count_session id t.layout.root ≡ count_session id s.layout.root))
  unfolding handle_delete_terminal
  delete_terminal-gone ws tm own = (
    ground (arith, count_terminal-drop_terminal ws.id tm.id tm.id s.workspaces),
    ground (arith, unplaced tm.id tm.id s.layout v),
    λ id n. (
      ground (arith, count_terminal-drop_terminal ws.id tm.id id s.workspaces),
      ground (arith, unplaced tm.id id s.layout v),
    ),
  )

  -- In a valid layout, when the server has deleted a workspace, and no other workspace has a terminal of it, then none
  -- of its terminals is in a workspace or shown in a pane.
  delete_workspace-gone :
      (ws : Workspace) (id : String)
      → 1 ≤ count_in_list id ws.terminals
      → count_within ws.id id s.workspaces ≡ count_terminal id s.workspaces
      → let t = handle_delete_workspace ws true (answered tt) s in
        (count_terminal id t.workspaces ≡ 0) × (count_session id t.layout.root ≡ 0)
  unfolding handle_delete_workspace
  delete_workspace-gone ws id here own = (
    omega (arith, count_terminal-drop_workspace ws.id id s.workspaces),
    (unplaced_all id ws.terminals s.layout v).1 here,
  )

-- The workspace value has the terminals that the state has for its id.
abbrev pub IsCurrent : {R : Type 0} → Workspace → State R → Type 0
IsCurrent ws s =
    (id : String) → 1 ≤ count_within ws.id id s.workspaces → 1 ≤ count_in_list id ws.terminals

-- The list has every terminal of the state.
abbrev pub HasTerminals : {R : Type 0} → List Workspace → State R → Type 0
HasTerminals wss s = (id : String) → 1 ≤ count_terminal id s.workspaces → 1 ≤ count_terminal id wss

-- A handler has run.
pub data Handled {R : Type 0} (s : State R) : State R → Type 0 where
  added :
      (ws_id pane_id : String) (a : Answer Terminal)
      → 1 ≤ count_workspace ws_id s.workspaces
      → Handled s (handle_add_terminal ws_id pane_id a s)
  deleted_workspace :
      (ws : Workspace) (ok : Bool) (a : Answer Unit)
      → IsCurrent ws s
      → Handled s (handle_delete_workspace ws ok a s)
  deleted_terminal :
      (ws : Workspace) (tm : Terminal) (ok : Bool) (a : Answer Unit)
      → Handled s (handle_delete_terminal ws tm ok a s)
  renamed_terminal :
      (ws : Workspace) (a : Answer Terminal) → Handled s (handle_rename_terminal ws a s)
  renamed_workspace :
      (a : Answer Workspace)
      → ((updated : Workspace) → a ≡ answered updated → IsCurrent updated s)
      → Handled s (handle_rename_workspace a s)
  loaded :
      (a : Answer (List Workspace))
      → ((wss : List Workspace) → a ≡ answered wss → HasTerminals wss s)
      → Handled s (load a s)
  toggled : (ws_id : String) → Handled s (toggle_expanded ws_id s)

-- Any number of handlers, one after another.
pub data Handling {R : Type 0} (s : State R) : State R → Type 0 where
  done : Handling s s
  then_one : {t u : State R} → Handling s t → Handled t u → Handling s u

count_in_list-put_terminal :
    (id : String) (tm : Terminal) (tms : List Terminal)
    → count_in_list id (put_terminal tm tms) ≡ count_in_list id tms
unfolding count_in_list put_terminal
count_in_list-put_terminal id tm [] = refl
count_in_list-put_terminal id tm (x ∷ xs) = ground (arith, count_in_list-put_terminal id tm xs)

count_terminal-rename_in :
    (ws_id id : String) (tm : Terminal) (wss : List Workspace)
    → count_terminal id (rename_in ws_id tm wss) ≡ count_terminal id wss
unfolding count_terminal rename_in
count_terminal-rename_in ws_id id tm [] = refl
count_terminal-rename_in ws_id id tm (w ∷ ws) =
    ground
      (arith, count_terminal-rename_in ws_id id tm ws, count_in_list-put_terminal id tm w.terminals)

put_workspace-kept :
    (updated : Workspace) (id : String) (wss : List Workspace)
    → 1 ≤ count_in_list id updated.terminals
    → 1 ≤ count_terminal id wss
    → 1 ≤ count_terminal id (put_workspace updated wss)
unfolding count_terminal put_workspace
put_workspace-kept updated id [] u h = h
put_workspace-kept updated id (w ∷ ws) u h = ground (arith, put_workspace-kept updated id ws u)

put_workspace-apart :
    (updated : Workspace) (id : String) (wss : List Workspace)
    → count_within updated.id id wss ≡ 0
    → count_terminal id wss ≤ count_terminal id (put_workspace updated wss)
unfolding count_terminal put_workspace count_within
put_workspace-apart updated id [] e = omega arith
put_workspace-apart updated id (w ∷ ws) e = ground (arith, put_workspace-apart updated id ws)

-- A workspace that has the terminals of the one in its place loses none.
count_terminal-put_workspace :
    (updated : Workspace) (id : String) (wss : List Workspace)
    → (1 ≤ count_within updated.id id wss → 1 ≤ count_in_list id updated.terminals)
    → 1 ≤ count_terminal id wss
    → 1 ≤ count_terminal id (put_workspace updated wss)
count_terminal-put_workspace updated id wss c h =
    elim (ℕ_discrete (count_within updated.id id wss) 0) [
      | yes e ↦ omega (arith, h, put_workspace-apart updated id wss e)
      | no n ↦ put_workspace-kept updated id wss (c (omega (arith, n))) h
    ]

module _ {R : Type 0} (s : State R) (v : IsValid s.layout) (k : IsKnown s) where
  add-IsKnown :
      (ws_id p : String) (tm : Terminal)
      → 1 ≤ count_workspace ws_id s.workspaces
      → IsKnown (handle_add_terminal ws_id p (answered tm) s)
  unfolding handle_add_terminal
  add-IsKnown ws_id p tm e id h = elim (String-discrete tm.id id) [
    | yes q ↦
        subst (λ x. 1 ≤ count_terminal x (add_terminal ws_id tm s.workspaces)) q
          (omega (arith, count_terminal-add_new ws_id tm s.workspaces))
    | no q ↦ omega (
      arith,
      k id,
      assigned s v p tm.id id q,
      count_terminal-add_terminal ws_id id tm s.workspaces,
    )
  ]

  delete_workspace-IsKnown :
      (ws : Workspace) → IsCurrent ws s → IsKnown (handle_delete_workspace ws true (answered tt) s)
  unfolding handle_delete_workspace
  delete_workspace-IsKnown ws c id h = ground (
    arith,
    k id,
    c id,
    unplaced_all id ws.terminals s.layout v,
    count_terminal-drop_workspace ws.id id s.workspaces,
  )

  delete_terminal-IsKnown :
      (ws : Workspace) (tm : Terminal) → IsKnown (handle_delete_terminal ws tm true (answered tt) s)
  unfolding handle_delete_terminal
  delete_terminal-IsKnown ws tm id h = ground (
    arith,
    k id,
    unplaced tm.id id s.layout v,
    count_terminal-drop_terminal ws.id tm.id id s.workspaces,
  )

  Handled-IsKnown : {t : State R} → Handled s t → IsValid t.layout × IsKnown t
  unfolding handle_add_terminal handle_delete_workspace handle_delete_terminal
      handle_rename_terminal handle_rename_workspace load toggle_expanded
  Handled-IsKnown (added ws_id p failed e) = (v, k)
  Handled-IsKnown (added ws_id p (answered tm) e) =
      (assign_session-IsValid s.layout v p tm.id, add-IsKnown ws_id p tm e)
  Handled-IsKnown (deleted_workspace ws false a c) = (v, k)
  Handled-IsKnown (deleted_workspace ws true failed c) = (v, k)
  Handled-IsKnown (deleted_workspace ws true (answered tt) c) =
      (unplace_all-IsValid ws.terminals s.layout v, delete_workspace-IsKnown ws c)
  Handled-IsKnown (deleted_terminal ws tm false a) = (v, k)
  Handled-IsKnown (deleted_terminal ws tm true failed) = (v, k)
  Handled-IsKnown (deleted_terminal ws tm true (answered tt)) =
      (unplace_session-IsValid s.layout v tm.id, delete_terminal-IsKnown ws tm)
  Handled-IsKnown (renamed_terminal ws failed) = (v, k)
  Handled-IsKnown (renamed_terminal ws (answered tm)) =
      (v, λ id h. rw (count_terminal-rename_in ws.id id tm s.workspaces) (k id h))
  Handled-IsKnown (renamed_workspace failed c) = (v, k)
  Handled-IsKnown (renamed_workspace (answered updated) c) =
      (v, λ id h. count_terminal-put_workspace updated id s.workspaces (c updated refl id) (k id h))
  Handled-IsKnown (loaded failed c) = (v, k)
  Handled-IsKnown (loaded (answered wss) c) = (v, λ id h. c wss refl id (k id h))
  Handled-IsKnown (toggled ws_id) = (v, k)

-- From a state with a valid layout in which every session that a pane shows is a terminal of some
-- workspace, any number of handlers lead to such a state, if a terminal is added to a workspace that
-- is there, a workspace is deleted or replaced after a rename with the terminals that it has by then,
-- and a load has the terminals that there are.
pub Handling-IsKnown :
    {R : Type 0} {s t : State R}
    → Handling s t
    → IsValid s.layout
    → IsKnown s
    → IsValid t.layout × IsKnown t
Handling-IsKnown done v k = (v, k)
Handling-IsKnown (then_one {t} r x) v k =
    let (v', k') = Handling-IsKnown r v k in Handled-IsKnown t v' k' x
