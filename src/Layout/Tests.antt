-- ===== src/Layout/Tests.antt =====
-- A run of useLayout.ts, and its theorems at it.
use oh_my_terminal.Base.{ℕ, ◌≡◌, ◌≢◌, String, String-discrete, none, some, apart, refl, false}
use oh_my_terminal.Base.Number.{num, thousandths}
use oh_my_terminal.Json.{null, to_json, get_field}
use oh_my_terminal.PaneTree.{
  h, leaf, split, first_leaf_id, Session-discrete, set_ratio, find_leaf, split_leaf,
  set_leaf_session, remove_session,
}
use oh_my_terminal.PaneTree.Panes.{count_leaf, count_split}
use oh_my_terminal.Layout.{
  LayoutState, init, act, assigned, divided, closed, dragged, restored, saved, restore, save,
  close_pane, change_ratio, assign_session, split_pane,
}
use oh_my_terminal.Layout.Parse.{parse_layout}
use oh_my_terminal.Layout.RoundTrip.{repair, parse_layout-to_json}
use oh_my_terminal.Layout.Tidy.{IsNew}
use oh_my_terminal.Layout.Invariant.{IsValid}
use oh_my_terminal.Layout.Runs.{Run, here, next, IsTidyBlob, Run-IsValid, restore-save}

abbrev first : LayoutState ℕ
first = init "p" null

-- A pane is split, the new pane gets a session, the divider is dragged, the layout is saved, the
-- first pane is closed, and the layout is restored.
abbrev last : LayoutState ℕ
last =
    act
      (act
        (act
          (act (act (act first (divided "p" h "s" "q")) (assigned "q" "x")) (dragged "s" (num 950)))
          saved)
        (closed "p" "r"))
      (restored false)

last-root : last.root ≡ split "s" h (num 900) (leaf "p" none) (leaf "q" (some "x"))
unfolding act init String-discrete Session-discrete restore parse_layout close_pane save
    change_ratio to_json set_ratio assign_session find_leaf split_pane split_leaf set_leaf_session
    remove_session get_field
last-root = refl

s≢q : ◌≢◌ {A = String} "s" "q"
unfolding String-discrete
s≢q = apart "s" "q" refl

first-IsNew : IsNew first.root "s" "q"
unfolding init count_leaf count_split String-discrete
first-IsNew = record { split_new = refl; leaf_new = refl; differ = s≢q }

null-IsTidyBlob : IsTidyBlob {R = ℕ} null
unfolding parse_layout
null-IsTidyBlob t e = cc

last-Run : Run first last
last-Run =
    next
      (next
        (next
          (next (next (next here (divided "p" h "s" "q") first-IsNew) (assigned "q" "x") tt)
            (dragged "s" (num 950)) tt)
          saved tt)
        (closed "p" "r") tt)
      (restored false) tt

Run-IsValid_example : IsValid last
Run-IsValid_example = Run-IsValid "p" null last null-IsTidyBlob last-Run

restore-save_example :
    let reloaded = restore false (init "z" (save (act last (closed "q" "r"))).server) in
    (reloaded.root ≡ repair (act last (closed "q" "r")).root)
    × (reloaded.root_ref ≡ repair (act last (closed "q" "r")).root)
    × (reloaded.focused_pane_id ≡ first_leaf_id (repair (act last (closed "q" "r")).root))
restore-save_example = restore-save last (closed "q" "r") "z" tt

parse_layout-to_json_example : parse_layout (to_json last.root) ≡ some (repair last.root)
parse_layout-to_json_example = parse_layout-to_json last.root
