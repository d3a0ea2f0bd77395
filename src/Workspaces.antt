-- ===== src/Workspaces.antt =====
-- frontend/src/features/workspace/useWorkspaces.ts: the workspaces of the sidebar and their
-- terminals, with the layout that shows them. A handler is what happens once its request is
-- answered: the request failed, or the server sent a value.
pub mod Sessions
pub mod Known
pub mod Handlers
mod Tests
use oh_my_terminal.Base.{
  ℕ, String, Option, none, some, List, [], ◌∷◌, ◌++◌, ite, String-discrete, Bool, true, false,
  if◌then◌else◌, not,
}
use oh_my_terminal.PaneTree.{set_has, set_add}
use oh_my_terminal.Layout.{LayoutState, assign_session, unplace_session, focus_session}

pub record Terminal : Type 0 where
  pub id : String
  pub name : String
  pub tmux_session : String

pub record Workspace : Type 0 where
  pub id : String
  pub name : String
  pub path : String
  pub terminals : List Terminal

pub record SessionRef : Type 0 where
  pub ws_id : String
  pub tm_id : String
  pub name : String
  pub path : String

-- The answer to a request.
pub data Answer (A : Type 0) : Type 0 where
  failed : Answer A
  answered : A → Answer A

-- `notify`, with the key of the text.
pub data Toast : Type 0 where
  success error : (key : String) → Toast

pub record State (R : Type 0) : Type 0 where
  pub workspaces : List Workspace
  pub expanded : List String
  pub layout : LayoutState R
  pub toasts : List Toast

-- A `Map` from strings, in the order of insertion.
unfoldable pub map_get : List (String × SessionRef) → String → Option SessionRef
map_get [] id = none
map_get (e ∷ es) id = ite (String-discrete e.0 id) (some e.1) (map_get es id)

unfoldable pub map_set :
    List (String × SessionRef) → String → SessionRef → List (String × SessionRef)
map_set [] id x = (id, x) ∷ []
map_set (e ∷ es) id x = ite (String-discrete e.0 id) ((id, x) ∷ es) (e ∷ map_set es id x)

abbrev pub session_ref : Workspace → Terminal → SessionRef
session_ref ws tm = record { ws_id = ws.id; tm_id = tm.id; name = tm.name; path = ws.path }

unfoldable pub terminal_walk :
    Workspace → List Terminal → List (String × SessionRef) → List (String × SessionRef)
terminal_walk ws [] m = m
terminal_walk ws (tm ∷ tms) m = terminal_walk ws tms (map_set m tm.id (session_ref ws tm))

unfoldable pub workspace_walk :
    List Workspace → List (String × SessionRef) → List (String × SessionRef)
unfolding terminal_walk
workspace_walk [] m = m
workspace_walk (ws ∷ wss) m = workspace_walk wss (terminal_walk ws ws.terminals m)

unfoldable pub sessions : List Workspace → List (String × SessionRef)
unfolding workspace_walk
sessions wss = workspace_walk wss []

unfoldable pub set_delete : List String → String → List String
set_delete [] x = []
set_delete (y ∷ ys) x = ite (String-discrete y x) ys (y ∷ set_delete ys x)

unfoldable pub add_terminal : String → Terminal → List Workspace → List Workspace
add_terminal ws_id tm [] = []
add_terminal ws_id tm (w ∷ ws) =
    ite (String-discrete w.id ws_id) (record w { terminals = w.terminals ++ tm ∷ [] }) w
    ∷ add_terminal ws_id tm ws

unfoldable pub drop_workspace : String → List Workspace → List Workspace
drop_workspace ws_id [] = []
drop_workspace ws_id (w ∷ ws) =
    ite (String-discrete w.id ws_id) (drop_workspace ws_id ws) (w ∷ drop_workspace ws_id ws)

unfoldable pub without_terminal : String → List Terminal → List Terminal
without_terminal tm_id [] = []
without_terminal tm_id (x ∷ xs) =
    ite (String-discrete x.id tm_id) (without_terminal tm_id xs) (x ∷ without_terminal tm_id xs)

unfoldable pub drop_terminal : String → String → List Workspace → List Workspace
unfolding without_terminal
drop_terminal ws_id tm_id [] = []
drop_terminal ws_id tm_id (w ∷ ws) =
    ite (String-discrete w.id ws_id) (record w { terminals = without_terminal tm_id w.terminals }) w
    ∷ drop_terminal ws_id tm_id ws

unfoldable pub put_workspace : Workspace → List Workspace → List Workspace
put_workspace updated [] = []
put_workspace updated (w ∷ ws) =
    ite (String-discrete w.id updated.id) updated w ∷ put_workspace updated ws

unfoldable pub put_terminal : Terminal → List Terminal → List Terminal
put_terminal updated [] = []
put_terminal updated (x ∷ xs) =
    ite (String-discrete x.id updated.id) updated x ∷ put_terminal updated xs

unfoldable pub rename_in : String → Terminal → List Workspace → List Workspace
unfolding put_terminal
rename_in ws_id updated [] = []
rename_in ws_id updated (w ∷ ws) =
    ite (String-discrete w.id ws_id) (record w { terminals = put_terminal updated w.terminals }) w
    ∷ rename_in ws_id updated ws

module _ {R : Type 0} where
  abbrev pub notify : Toast → State R → State R
  notify x s = record s { toasts = x ∷ s.toasts }

  -- `for (const tm of ws.terminals) layout.unplaceSession(tm.id)`
  unfoldable pub unplace_all : List Terminal → LayoutState R → LayoutState R
  unplace_all [] l = l
  unplace_all (tm ∷ tms) l = unplace_all tms (unplace_session tm.id l)

  unfoldable pub load : Answer (List Workspace) → State R → State R
  load failed s = s
  load (answered wss) s = record s { workspaces = wss }

  unfoldable pub toggle_expanded : String → State R → State R
  unfolding set_delete
  toggle_expanded ws_id s = record s {
    expanded =
        if set_has s.expanded ws_id then set_delete s.expanded ws_id else set_add s.expanded ws_id;
  }

  -- `pane_id` is the focused pane when the handler was called.
  unfoldable pub handle_add_terminal : String → String → Answer Terminal → State R → State R
  unfolding add_terminal
  handle_add_terminal ws_id pane_id failed s = notify (error "toast.error") s
  handle_add_terminal ws_id pane_id (answered tm) s =
      notify (success "toast.terminalAdded") (record s {
        workspaces = add_terminal ws_id tm s.workspaces;
        expanded = set_add s.expanded ws_id;
        layout = assign_session pane_id tm.id s.layout;
      })

  -- `ok` is the user's answer to the confirmation.
  unfoldable pub handle_delete_workspace : Workspace → Bool → Answer Unit → State R → State R
  unfolding drop_workspace unplace_all
  handle_delete_workspace ws false _ s = s
  handle_delete_workspace ws true failed s = notify (error "toast.error") s
  handle_delete_workspace ws true (answered _) s =
      notify (success "toast.workspaceDeleted") (record s {
        workspaces = drop_workspace ws.id s.workspaces;
        layout = unplace_all ws.terminals s.layout;
      })

  unfoldable pub handle_delete_terminal :
      Workspace → Terminal → Bool → Answer Unit → State R → State R
  unfolding drop_terminal
  handle_delete_terminal ws tm false _ s = s
  handle_delete_terminal ws tm true failed s = notify (error "toast.error") s
  handle_delete_terminal ws tm true (answered _) s =
      notify (success "toast.terminalDeleted") (record s {
        workspaces = drop_terminal ws.id tm.id s.workspaces;
        layout = unplace_session tm.id s.layout;
      })

  -- A request to rename that fails is thrown to the caller, and nothing changes here.
  unfoldable pub handle_rename_workspace : Answer Workspace → State R → State R
  unfolding put_workspace
  handle_rename_workspace failed s = s
  handle_rename_workspace (answered updated) s =
      notify (success "toast.workspaceRenamed")
        (record s { workspaces = put_workspace updated s.workspaces })

  unfoldable pub handle_rename_terminal : Workspace → Answer Terminal → State R → State R
  unfolding rename_in
  handle_rename_terminal ws failed s = s
  handle_rename_terminal ws (answered updated) s =
      notify (success "toast.terminalRenamed")
        (record s { workspaces = rename_in ws.id updated s.workspaces })
