-- ===== src/App/Tests.antt =====
-- A run of App.tsx, and its theorems at it.
use oh_my_terminal.Base.{
  ℕ, ◌≤◌, ◌≡◌, String-discrete, none, some, [], ◌∷◌, true, false, arith, refl,
}
use oh_my_terminal.Base.Number.{thousandths}
use oh_my_terminal.Json.{null}
use oh_my_terminal.PaneTree.Panes.{count_session}
use oh_my_terminal.PaneTree.Shows.{Shows}
use oh_my_terminal.Layout.{init, has_pane}
use oh_my_terminal.Layout.Invariant.{IsValid}
use oh_my_terminal.Layout.Runs.{init-IsValid}
use oh_my_terminal.Workspaces.{Terminal, Workspace, answered}
use oh_my_terminal.Workspaces.Sessions.{last_session}
use oh_my_terminal.Workspaces.Known.{count_terminal, count_workspace, IsKnown}
use oh_my_terminal.App.{
  AppState, select_terminal, create_terminal_in_pane, focused_session_id, active_session,
  handle_logout,
}
use oh_my_terminal.App.Selecting.{select_terminal-shows, create_terminal_in_pane-placed}

abbrev shell : Terminal
shell = record { id = "x"; name = "shell"; tmux_session = "th-x" }

abbrev home : Workspace
home = record { id = "w"; name = "home"; path = "/home"; terminals = shell ∷ [] }

abbrev editor : Terminal
editor = record { id = "y"; name = "editor"; tmux_session = "th-y" }

abbrev start : AppState ℕ
start = record {
  authed = some true;
  wizard_open = false;
  sidebar_collapsed = false;
  toast = none;
  toast_id = 0;
  timer = none;
  hook = record { workspaces = home ∷ []; expanded = []; layout = init "p" null; toasts = [] };
}

start-IsKnown : IsKnown start.hook
unfolding init count_session
start-IsKnown id h = ground arith

home_there : 1 ≤ count_workspace "w" (home ∷ [])
unfolding count_workspace String-discrete
home_there = omega arith

select_terminal-shows_example :
    let t = select_terminal true home shell start in
    IsValid t.hook.layout
    × (focused_session_id t ≡ some "x")
    × (active_session t ≡ last_session "x" (home ∷ []))
select_terminal-shows_example = select_terminal-shows true home shell start (init-IsValid "p" null)

create_terminal_in_pane-placed_example :
    let t = (create_terminal_in_pane "p" "w" (answered editor) start).hook in
    IsValid t.layout
    × IsKnown t
    × (1 ≤ count_terminal "y" t.workspaces)
    × (has_pane "p" start.hook.layout ≡ true
        → Shows "p" "y" t.layout.root × (t.layout.focused_pane_id ≡ "p"))
    × (has_pane "p" start.hook.layout ≡ false → t.layout ≡ start.hook.layout)
create_terminal_in_pane-placed_example =
    create_terminal_in_pane-placed start (init-IsValid "p" null) start-IsKnown "p" "w" editor
      home_there

-- After a logout, even one whose request fails, no workspace is left.
logged_out : (handle_logout (answered tt) start).hook.workspaces ≡ []
unfolding handle_logout
logged_out = refl
