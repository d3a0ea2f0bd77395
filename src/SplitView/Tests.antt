-- ===== src/SplitView/Tests.antt =====
-- A split with an empty pane, and the theorems at it.
use oh_my_terminal.Base.{
  ℕ, ◌≤◌, ◌≡◌, String-discrete, some, none, List, [], ◌∷◌, false, All, arith, refl,
}
use oh_my_terminal.Base.Number.{thousandths, num}
use oh_my_terminal.Json.{null}
use oh_my_terminal.PaneTree.{set_has}
use oh_my_terminal.PaneTree.Panes.{pane, panes, expand}
use oh_my_terminal.Layout.{LayoutState, init, assign_session}
use oh_my_terminal.Layout.Invariant.{IsValid}
use oh_my_terminal.Layout.Runs.{init-IsValid}
use oh_my_terminal.Workspaces.{Terminal, Workspace}
use oh_my_terminal.Workspaces.Known.{count_in_list}
use oh_my_terminal.SplitView.{
  Divider, PointerEvent, down, moved, ended, available, run, create_in, effective_new_ws_id,
  free_terminals,
}
use oh_my_terminal.SplitView.Offers.{count_offered, pick-panes}
use oh_my_terminal.SplitView.Drags.{IsNotDown, run-drags}

abbrev shell : Terminal
shell = record { id = "x"; name = "shell"; tmux_session = "th-x" }

abbrev home : Workspace
home = record { id = "w"; name = "home"; path = "/home"; terminals = shell ∷ [] }

abbrev blank : LayoutState ℕ
blank = init "p" null

shell_offered : 1 ≤ count_offered "x" (available blank.placed (home ∷ []))
unfolding init available free_terminals set_has count_offered count_in_list String-discrete
shell_offered = omega arith

pick-panes_example :
    panes (assign_session "p" "x" blank).root
    ≡ expand "p" (pane "p" (some "x") ∷ []) (panes blank.root)
pick-panes_example = pick-panes blank (init-IsValid "p" null) "p" "x" (home ∷ []) shell_offered

abbrev still : Divider ℕ
still = record { dragging = false; captured = false; layout = blank }

abbrev drag : List (PointerEvent ℕ)
drag = down ∷ moved (some (num 300)) ∷ moved none ∷ ended ∷ moved (some (num 900)) ∷ []

run-drags_example :
    let t = run "s" still drag in
    IsValid t.layout
    × (panes t.layout.root ≡ panes blank.root)
    × (t.layout.focused_pane_id ≡ blank.focused_pane_id)
    × (false ≡ false → All IsNotDown drag → t.layout ≡ blank)
run-drags_example = run-drags "s" drag still (init-IsValid "p" null)

-- Without a choice the first workspace is taken, and without a workspace none is.
first_taken : create_in "" (home ∷ []) ≡ some "w"
unfolding create_in effective_new_ws_id String-discrete
first_taken = refl

none_taken : create_in "" [] ≡ none
unfolding create_in effective_new_ws_id String-discrete
none_taken = refl
