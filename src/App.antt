-- ===== src/App.antt =====
-- frontend/src/App.tsx: the application's state over the hooks of the layout and the workspaces.
-- A handler that sends a request is what happens once it is answered.
pub mod Selecting
pub mod Toasts
mod Tests
use oh_my_terminal.Base.{
  ℕ, suc, ◌-◌, String, Option, none, some, List, [], ◌∷◌, ◌++◌, Bool, true, false, not, leb,
  if◌then◌else◌,
}
use oh_my_terminal.Base.Number.{Number}
use oh_my_terminal.PaneTree.{PaneNode, leaf, split, find_leaf, set_add}
use oh_my_terminal.Layout.{LayoutState, focus_session, assign_session, has_pane}
use oh_my_terminal.Workspaces.{
  Terminal, Workspace, SessionRef, State, Answer, failed, answered, Toast, success, error, map_get,
  sessions, add_terminal, load,
}

-- The text that the toast shows, and the number of the notification.
pub record Notice : Type 0 where
  pub id : ℕ
  pub toast : Toast

pub record AppState (R : Type 0) : Type 0 where
  pub authed : Option Bool
  pub wizard_open : Bool
  pub sidebar_collapsed : Bool
  pub toast : Option Notice
  -- `toastId.current`
  pub toast_id : ℕ
  -- the milliseconds that are left of the pending timeout of the toast's effect
  pub timer : Option ℕ
  -- what `useWorkspaces` and `useLayout` hold; the calls of `notify` are not kept there
  pub hook : State R

abbrev pub toast_dismiss_ms : ℕ
toast_dismiss_ms = 2600

session_at : List (String × SessionRef) → Option String → Option SessionRef
session_at m none = none
session_at m (some id) = map_get m id

-- What the main area shows: the split view, one terminal, or the hint that there is none.
pub data Main : Type 0 where
  split_view no_terminal : Main
  one_terminal : SessionRef → Main

main_of : Option SessionRef → Main
main_of none = no_terminal
main_of (some r) = one_terminal r

module _ {R : Type 0} where
  -- The effect of the new toast clears the timeout of the old one.
  unfoldable pub notify : Toast → AppState R → AppState R
  notify x s = record s {
    toast = some (record { id = suc s.toast_id; toast = x });
    toast_id = suc s.toast_id;
    timer = some toast_dismiss_ms;
  }

  wait : ℕ → AppState R → Option ℕ → AppState R
  wait ms s none = s
  wait ms s (some left) =
      if leb left ms
      then record s { toast = none; timer = none }
      else record s { timer = some (left - ms) }

  -- So many milliseconds pass.
  unfoldable pub pass : ℕ → AppState R → AppState R
  unfolding wait
  pass ms s = wait ms s s.timer

  -- A handler of `useWorkspaces` runs, and the notifications that it makes are shown in order.
  announce : List Toast → AppState R → AppState R
  unfolding notify
  announce [] s = s
  announce (x ∷ xs) s = notify x (announce xs s)

  unfoldable pub run_hook : (State R → State R) → AppState R → AppState R
  unfolding announce
  run_hook f s =
      let t = f (record s.hook { toasts = [] }) in
      announce t.toasts (record s { hook = record t { toasts = [] } })

  -- `checkAuth()` is answered.
  unfoldable pub auth_checked : Bool → AppState R → AppState R
  auth_checked ok s = record s { authed = some ok }

  unfoldable pub handle_login : AppState R → AppState R
  handle_login s = record s { authed = some true }

  -- The `finally` runs whether the request fails or not.
  unfoldable pub handle_logout : Answer Unit → AppState R → AppState R
  handle_logout a s = record s {
    authed = some false;
    hook = record s.hook { workspaces = []; expanded = [] };
  }

  leaf_session : Option (PaneNode (Number R)) → Option String
  leaf_session none = none
  leaf_session (some (split _ _ _ _ _)) = none
  leaf_session (some (leaf _ session_id)) = session_id

  -- The session of the pane that has the focus, as single mode and the sidebar show it.
  unfoldable pub focused_session_id : AppState R → Option String
  unfolding leaf_session
  focused_session_id s = leaf_session (find_leaf s.hook.layout.root s.hook.layout.focused_pane_id)

  unfoldable pub active_session : AppState R → Option SessionRef
  unfolding session_at
  active_session s = session_at (sessions s.hook.workspaces) (focused_session_id s)

  unfoldable pub show_terminal : String → LayoutState R → LayoutState R
  show_terminal tm_id l =
      let (focused, found) = focus_session tm_id l in
      if found then focused else assign_session l.focused_pane_id tm_id focused

  -- `mobile` is whether the window matches MOBILE_QUERY.
  unfoldable pub select_terminal : Bool → Workspace → Terminal → AppState R → AppState R
  unfolding show_terminal
  select_terminal mobile ws tm s = record s {
    sidebar_collapsed = if mobile then true else s.sidebar_collapsed;
    hook = record s.hook {
      expanded = set_add s.hook.expanded ws.id;
      layout = show_terminal tm.id s.hook.layout;
    };
  }

  unfoldable pub create_terminal_in_pane :
      String → String → Answer Terminal → AppState R → AppState R
  create_terminal_in_pane pane_id ws_id failed s = notify (error "toast.error") s
  create_terminal_in_pane pane_id ws_id (answered tm) s =
      notify (success "toast.terminalAdded") (record s {
        hook = record s.hook {
          workspaces = add_terminal ws_id tm s.hook.workspaces;
          layout =
              if has_pane pane_id s.hook.layout
              then assign_session pane_id tm.id s.hook.layout
              else s.hook.layout;
        };
      })

  -- `onCreated` of the wizard.
  unfoldable pub workspace_created : Workspace → AppState R → AppState R
  workspace_created ws s = notify (success "toast.workspaceAdded") (record s {
    hook = record s.hook {
      workspaces = s.hook.workspaces ++ ws ∷ [];
      expanded = set_add s.hook.expanded ws.id;
    };
  })

  unfoldable pub main_view : Bool → AppState R → Main
  unfolding main_of
  main_view split_enabled s = if split_enabled then split_view else main_of (active_session s)

  unfoldable pub set_wizard_open : Bool → AppState R → AppState R
  set_wizard_open open_now s = record s { wizard_open = open_now }

  unfoldable pub toggle_sidebar : AppState R → AppState R
  toggle_sidebar s = record s { sidebar_collapsed = not s.sidebar_collapsed }

  unfoldable pub open_sidebar : AppState R → AppState R
  open_sidebar s = record s { sidebar_collapsed = false }
