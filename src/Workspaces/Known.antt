-- ===== src/Workspaces/Known.antt =====
-- The sessions that panes show, against the terminals of the workspaces.
use oh_my_terminal.Base.{
  ℕ, ◌+◌, ◌≤◌, ◌≡◌, subst, String, List, [], ◌∷◌, ◌++◌, ite, String-discrete, arith, refl,
}
use oh_my_terminal.PaneTree.{remove_session}
use oh_my_terminal.PaneTree.Panes.{count_session}
use oh_my_terminal.PaneTree.Sessions.{count_session-remove_session, count_session-remove_session_ne}
use oh_my_terminal.Layout.{LayoutState, unplace_session, commit}
use oh_my_terminal.Layout.Invariant.{IsValid, unplace_session-IsValid}
use oh_my_terminal.Workspaces.{
  Terminal, Workspace, State, add_terminal, drop_workspace, without_terminal, drop_terminal,
  unplace_all,
}

unfoldable pub count_in_list : String → List Terminal → ℕ
count_in_list id [] = 0
count_in_list id (tm ∷ tms) = ite (String-discrete tm.id id) 1 0 + count_in_list id tms

-- How many terminals have the id, in all workspaces.
unfoldable pub count_terminal : String → List Workspace → ℕ
unfolding count_in_list
count_terminal id [] = 0
count_terminal id (w ∷ ws) = count_in_list id w.terminals + count_terminal id ws

-- How many of those are in workspaces with the id.
unfoldable pub count_within : String → String → List Workspace → ℕ
unfolding count_in_list
count_within ws_id id [] = 0
count_within ws_id id (w ∷ ws) =
    ite (String-discrete w.id ws_id) (count_in_list id w.terminals) 0 + count_within ws_id id ws

count_in_list-append :
    (id : String) (xs ys : List Terminal)
    → count_in_list id (xs ++ ys) ≡ count_in_list id xs + count_in_list id ys
unfolding count_in_list
count_in_list-append id [] ys = omega arith
count_in_list-append id (x ∷ xs) ys = omega (arith, count_in_list-append id xs ys)

pub count_terminal-add_terminal :
    (ws_id id : String) (tm : Terminal) (wss : List Workspace)
    → count_terminal id wss ≤ count_terminal id (add_terminal ws_id tm wss)
unfolding count_terminal add_terminal count_in_list
count_terminal-add_terminal ws_id id tm [] = omega arith
count_terminal-add_terminal ws_id id tm (w ∷ ws) = ground (
  arith,
  count_terminal-add_terminal ws_id id tm ws,
  count_in_list-append id w.terminals (tm ∷ []),
)

-- How many workspaces have the id.
unfoldable pub count_workspace : String → List Workspace → ℕ
count_workspace ws_id [] = 0
count_workspace ws_id (w ∷ ws) = ite (String-discrete w.id ws_id) 1 0 + count_workspace ws_id ws

pub count_terminal-add_new :
    (ws_id : String) (tm : Terminal) (wss : List Workspace)
    → count_workspace ws_id wss ≤ count_terminal tm.id (add_terminal ws_id tm wss)
unfolding count_terminal add_terminal count_in_list count_workspace
count_terminal-add_new ws_id tm [] = omega arith
count_terminal-add_new ws_id tm (w ∷ ws) =
    ground
      (arith, count_terminal-add_new ws_id tm ws, count_in_list-append tm.id w.terminals (tm ∷ []))

count_in_list-without_terminal :
    (tm_id id : String) (tms : List Terminal)
    → count_in_list id (without_terminal tm_id tms)
      ≡ ite (String-discrete tm_id id) 0 (count_in_list id tms)
unfolding count_in_list without_terminal
count_in_list-without_terminal tm_id id [] = ground arith
count_in_list-without_terminal tm_id id (x ∷ xs) =
    ground (arith, count_in_list-without_terminal tm_id id xs)

pub count_terminal-drop_terminal :
    (ws_id tm_id id : String) (wss : List Workspace)
    → count_terminal id (drop_terminal ws_id tm_id wss)
        + ite (String-discrete tm_id id) (count_within ws_id id wss) 0
      ≡ count_terminal id wss
unfolding count_terminal drop_terminal count_within
count_terminal-drop_terminal ws_id tm_id id [] = ground arith
count_terminal-drop_terminal ws_id tm_id id (w ∷ ws) = ground (
  arith,
  count_terminal-drop_terminal ws_id tm_id id ws,
  count_in_list-without_terminal tm_id id w.terminals,
)

pub count_terminal-drop_workspace :
    (ws_id id : String) (wss : List Workspace)
    → count_terminal id (drop_workspace ws_id wss) + count_within ws_id id wss
      ≡ count_terminal id wss
unfolding count_terminal drop_workspace count_within
count_terminal-drop_workspace ws_id id [] = refl
count_terminal-drop_workspace ws_id id (w ∷ ws) =
    ground (arith, count_terminal-drop_workspace ws_id id ws)

module _ {R : Type 0} where
  -- Every session that a pane shows is a terminal of some workspace.
  abbrev pub IsKnown : State R → Type 0
  IsKnown s =
      (id : String) → 1 ≤ count_session id s.layout.root → 1 ≤ count_terminal id s.workspaces

  unplace_session-root :
      (tm : String) (l : LayoutState R)
      → IsValid l
      → (unplace_session tm l).root ≡ remove_session l.root tm
  unfolding unplace_session commit
  unplace_session-root tm l v = rw v.mirrored refl

  pub unplaced :
      (tm id : String) (l : LayoutState R)
      → IsValid l
      → count_session id (unplace_session tm l).root
        ≡ ite (String-discrete tm id) 0 (count_session id l.root)
  unplaced tm id l v =
      rw (unplace_session-root tm l v)
        (elim (String-discrete tm id)
          as (λ d.
            count_session id (remove_session l.root tm) ≡ ite d 0 (count_session id l.root)) [
              | yes p ↦
                  subst (λ x. count_session x (remove_session l.root tm) ≡ 0) p
                    (count_session-remove_session tm l.root)
              | no p ↦ count_session-remove_session_ne tm id l.root p
            ])

  pub unplace_all-IsValid :
      (tms : List Terminal) (l : LayoutState R) → IsValid l → IsValid (unplace_all tms l)
  unfolding unplace_all
  unplace_all-IsValid [] l v = v
  unplace_all-IsValid (tm ∷ tms) l v =
      unplace_all-IsValid tms (unplace_session tm.id l) (unplace_session-IsValid l v tm.id)

  pub unplaced_all :
      (id : String) (tms : List Terminal) (l : LayoutState R)
      → IsValid l
      → (count_session id (unplace_all tms l).root ≤ count_session id l.root)
        × (1 ≤ count_in_list id tms → count_session id (unplace_all tms l).root ≡ 0)
  unfolding unplace_all count_in_list
  unplaced_all id [] l v = ground arith
  unplaced_all id (tm ∷ tms) l v = ground (
    arith,
    unplaced tm.id id l v,
    unplaced_all id tms (unplace_session tm.id l) (unplace_session-IsValid l v tm.id),
  )
