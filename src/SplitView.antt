-- ===== src/SplitView.antt =====
-- frontend/src/features/split/SplitView.tsx and frontend/src/features/split/SessionPicker.tsx: what a
-- pane shows, the terminals that an empty pane offers, and the drag of a divider. Where the pointer
-- stands between the sides of the split is an argument of a move: a ratio, or none if there is no
-- element.
pub mod Offers
pub mod Drags
mod Tests
use oh_my_terminal.Base.{
  String, String-discrete, Option, none, some, List, [], ◌∷◌, Bool, true, false, ite, if◌then◌else◌,
}
use oh_my_terminal.Base.Number.{Reals, Number}
use oh_my_terminal.PaneTree.{PaneNode, SplitDir, leaf, split, set_has}
use oh_my_terminal.Layout.{LayoutState, change_ratio}
use oh_my_terminal.Workspaces.{Terminal, Workspace, SessionRef, map_get}

-- `LeafView`
pub data LeafView : Type 0 where
  terminal_pane : (session : SessionRef) (focused : Bool) → LeafView
  session_picker : LeafView

pub data View : Type 0 where
  leaf_view : (id : String) → LeafView → View
  split_view : (id : String) (dir : SplitDir) (first second : View) → View

pane_or_picker : Option SessionRef → Bool → LeafView
pane_or_picker none focused = session_picker
pane_or_picker (some session) focused = terminal_pane session focused

session_in : List (String × SessionRef) → Option String → Option SessionRef
session_in m none = none
session_in m (some id) = map_get m id

-- The view of a tree, for the sessions and the focused pane.
unfoldable pub view :
    {R : Type 0} → List (String × SessionRef) → String → PaneNode (Number R) → View
unfolding pane_or_picker session_in
view m focused_id (leaf id session_id) =
    leaf_view id
      (pane_or_picker (session_in m session_id) (ite (String-discrete focused_id id) true false))
view m focused_id (split id dir ratio first second) =
    split_view id dir (view m focused_id first) (view m focused_id second)

-- The terminals of a workspace that no pane shows.
unfoldable pub free_terminals : List String → List Terminal → List Terminal
free_terminals placed [] = []
free_terminals placed (tm ∷ tms) =
    let rest = free_terminals placed tms in if set_has placed tm.id then rest else tm ∷ rest

add_group :
    Workspace → List Terminal → List (Workspace × List Terminal) → List (Workspace × List Terminal)
add_group ws [] groups = groups
add_group ws (tm ∷ tms) groups = (ws, tm ∷ tms) ∷ groups

unfoldable pub available : List String → List Workspace → List (Workspace × List Terminal)
unfolding free_terminals add_group
available placed [] = []
available placed (ws ∷ wss) =
    add_group ws (free_terminals placed ws.terminals) (available placed wss)

first_id : List Workspace → String
first_id [] = ""
first_id (ws ∷ wss) = ws.id

-- The workspace that the button creates a terminal in: the chosen one, or the first.
unfoldable pub effective_new_ws_id : String → List Workspace → String
unfolding first_id
effective_new_ws_id new_ws_id wss = ite (String-discrete new_ws_id "") (first_id wss) new_ws_id

unfoldable pub create_in : String → List Workspace → Option String
unfolding effective_new_ws_id
create_in new_ws_id wss =
    let id = effective_new_ws_id new_ws_id wss in ite (String-discrete id "") none (some id)

-- The divider of a split, over the layout that it changes.
pub record Divider (R : Type 0) : Type 0 where
  pub dragging : Bool
  pub captured : Bool
  pub layout : LayoutState R

pub data PointerEvent (R : Type 0) : Type 0 where
  down ended : PointerEvent R
  moved : Option (Number R) → PointerEvent R

module _ {R : Type 0} ⦃r : Reals R⦄ (split_id : String) where
  on_move : Option (Number R) → Divider R → Divider R
  on_move none s = s
  on_move (some ratio) s = record s { layout = change_ratio split_id ratio s.layout }

  unfoldable pub step : Divider R → PointerEvent R → Divider R
  unfolding on_move
  step s down = record s { dragging = true; captured = true }
  step s (moved ratio) = if s.dragging then on_move ratio s else s
  step s ended = if s.dragging then record s { dragging = false; captured = false } else s

  unfoldable pub run : Divider R → List (PointerEvent R) → Divider R
  unfolding step
  run s [] = s
  run s (e ∷ es) = run (step s e) es
