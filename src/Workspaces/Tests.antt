-- ===== src/Workspaces/Tests.antt =====
-- A run of useWorkspaces.ts, and its theorems at it.
use oh_my_terminal.Base.{ℕ, ◌≤◌, ◌≡◌, ◌≢◌, String, String-discrete, [], ◌∷◌, true, arith, refl}
use oh_my_terminal.Base.Number.{thousandths}
use oh_my_terminal.Json.{null}
use oh_my_terminal.PaneTree.Panes.{count_session}
use oh_my_terminal.Layout.{init}
use oh_my_terminal.Layout.Invariant.{IsValid}
use oh_my_terminal.Layout.Runs.{init-IsValid}
use oh_my_terminal.Workspaces.{
  Terminal, Workspace, State, answered, map_get, sessions, handle_add_terminal,
  handle_delete_terminal, add_terminal,
}
use oh_my_terminal.Workspaces.Sessions.{last_session, map_get-sessions}
use oh_my_terminal.Workspaces.Known.{
  count_in_list, count_terminal, count_within, count_workspace, IsKnown,
}
use oh_my_terminal.Workspaces.Handlers.{
  delete_terminal-gone, added, Handling, done, then_one, Handling-IsKnown,
}

abbrev shell : Terminal
shell = record { id = "x"; name = "shell"; tmux_session = "th-x" }

abbrev home : Workspace
home = record { id = "w"; name = "home"; path = "/home"; terminals = [] }

abbrev empty : State ℕ
empty = record { workspaces = home ∷ []; expanded = []; layout = init "p" null; toasts = [] }

-- A terminal is added, which the pane shows.
abbrev one : State ℕ
one = handle_add_terminal "w" "p" (answered shell) empty

empty-IsKnown : IsKnown empty
unfolding init count_session
empty-IsKnown id h = ground arith

home_there : 1 ≤ count_workspace "w" (home ∷ [])
unfolding count_workspace String-discrete
home_there = omega arith

one-Handling : Handling empty one
one-Handling = then_one done (added "w" "p" (answered shell) home_there)

one_both : IsValid one.layout × IsKnown one
one_both = Handling-IsKnown one-Handling (init-IsValid "p" null) empty-IsKnown

one_within : count_within "w" "x" one.workspaces ≡ count_terminal "x" one.workspaces
unfolding handle_add_terminal add_terminal count_within count_terminal count_in_list String-discrete
one_within = refl

abbrev full : Workspace
full = record home { terminals = shell ∷ [] }

map_get-sessions_example : map_get (sessions one.workspaces) "x" ≡ last_session "x" one.workspaces
map_get-sessions_example = map_get-sessions "x" one.workspaces

Handling-IsKnown_example : IsValid one.layout × IsKnown one
Handling-IsKnown_example = Handling-IsKnown one-Handling (init-IsValid "p" null) empty-IsKnown

full_holds : 1 ≤ count_in_list "x" full.terminals
unfolding count_in_list String-discrete
full_holds = omega arith

delete_terminal-gone_example :
    let t = handle_delete_terminal full shell true (answered tt) one in
    (count_terminal "x" t.workspaces ≡ 0)
    × (count_session "x" t.layout.root ≡ 0)
    × ((id : String)
        → "x" ≢ id
        → (count_terminal id t.workspaces ≡ count_terminal id one.workspaces)
          × (count_session id t.layout.root ≡ count_session id one.layout.root))
delete_terminal-gone_example = delete_terminal-gone one one_both.0 full shell one_within
