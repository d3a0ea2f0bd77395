-- ===== src/Layout.antt =====
-- frontend/src/features/split/useLayout.ts: the layout hook. A state holds what React and the refs
-- hold; an action is a call that the user interface makes, with the ids that `newPaneId` draws.
pub mod Parse
pub mod RoundTrip
pub mod Tidy
pub mod Invariant
pub mod Focus
pub mod Runs
mod Tests
use oh_my_terminal.Base.{
  String, Option, none, some, List, [], ◌∷◌, ite, String-discrete, Bool, true, false, if◌then◌else◌,
}
use oh_my_terminal.Base.Number.{Reals, Number}
use oh_my_terminal.PaneTree.{
  PaneNode, SplitDir, leaf, split, placed_session_ids, find_leaf, first_leaf_id, remove_node,
  remove_session, set_leaf_session, set_ratio, split_leaf,
}
use oh_my_terminal.Json.{Json, to_json}
use Parse.{parse_layout}

pub record LayoutState (R : Type 0) : Type 0 where
  pub root : PaneNode (Number R)
  pub focused_pane_id : String
  pub placed : List String
  -- `rootRef.current`
  pub root_ref : PaneNode (Number R)
  -- the tree that the pending timeout of `persist` is to save
  pub save_timer : Option (PaneNode (Number R))
  -- what the server keeps under /api/layout
  pub server : Json R

module _ {R : Type 0} where
  unfoldable pub init : String → Json R → LayoutState R
  init new_id server = record {
    root = leaf new_id none;
    focused_pane_id = first_leaf_id {A = Number R} (leaf new_id none);
    placed = [];
    root_ref = leaf new_id none;
    save_timer = none;
    server = server;
  }

  -- `persist` clears the pending timeout and starts one for the new tree.
  unfoldable pub persist : PaneNode (Number R) → LayoutState R → LayoutState R
  persist next s = record s { save_timer = some next }

  unfoldable pub commit : PaneNode (Number R) → LayoutState R → LayoutState R
  unfolding persist
  commit next s =
      persist next (record s { root_ref = next; root = next; placed = placed_session_ids next })

  unfoldable pub focus_pane : String → LayoutState R → LayoutState R
  focus_pane pane_id s = record s { focused_pane_id = pane_id }

  unfoldable pub is_found : Option (PaneNode (Number R)) → Bool
  is_found none = false
  is_found (some _) = true

  unfoldable pub has_pane : String → LayoutState R → Bool
  unfolding is_found
  has_pane pane_id s = is_found (find_leaf s.root_ref pane_id)

  unfoldable pub assign_session : String → String → LayoutState R → LayoutState R
  unfolding has_pane commit focus_pane
  assign_session pane_id tm_id s =
      if has_pane pane_id s
      then focus_pane pane_id
          (commit (set_leaf_session (remove_session s.root_ref tm_id) pane_id (some tm_id)) s)
      else s

  -- `removeNode(…) ?? leaf(null)`
  unfoldable pub or_leaf : String → Option (PaneNode (Number R)) → PaneNode (Number R)
  or_leaf new_id none = leaf new_id none
  or_leaf new_id (some t) = t

  unfoldable pub close_pane : String → String → LayoutState R → LayoutState R
  unfolding or_leaf commit is_found
  close_pane pane_id new_id s =
      let next = or_leaf new_id (remove_node s.root_ref pane_id) in
      let committed = commit next s in
      let cur = committed.focused_pane_id in
      record committed {
        focused_pane_id = if is_found (find_leaf next cur) then cur else first_leaf_id next;
      }

  unfoldable pub unplace_session : String → LayoutState R → LayoutState R
  unfolding commit
  unplace_session tm_id s = commit (remove_session s.root_ref tm_id) s

  -- The walk of `focusSession`; the last pane with the session wins.
  unfoldable pub found_walk : String → PaneNode (Number R) → String → String
  found_walk tm_id (leaf i none) found = found
  found_walk tm_id (leaf i (some x)) found = ite (String-discrete x tm_id) i found
  found_walk tm_id (split _ _ _ first second) found =
      found_walk tm_id second (found_walk tm_id first found)

  unfoldable pub focus_session : String → LayoutState R → LayoutState R × Bool
  unfolding found_walk focus_pane
  focus_session tm_id s =
      let found = found_walk tm_id s.root_ref "" in
      ite (String-discrete found "") (s, false) (focus_pane found s, true)

  module _ ⦃r : Reals R⦄ where
    unfoldable pub split_pane : String → SplitDir → String → String → LayoutState R → LayoutState R
    unfolding commit
    split_pane pane_id dir split_id new_id s =
        commit (split_leaf s.root_ref pane_id dir split_id new_id) s

    unfoldable pub change_ratio : String → Number R → LayoutState R → LayoutState R
    unfolding commit
    change_ratio split_id ratio s = commit (set_ratio s.root_ref split_id ratio) s

    put_parsed : LayoutState R → Option (PaneNode (Number R)) → LayoutState R
    put_parsed s none = s
    put_parsed s (some parsed) = record s {
      root_ref = parsed;
      root = parsed;
      focused_pane_id = first_leaf_id parsed;
      placed = placed_session_ids parsed;
    }

    -- The effect that runs once the user is authenticated; `cancelled` is its cleanup's flag. The
    -- blobs that `!blob` refuses are refused by `parse_layout` too.
    unfoldable pub restore : Bool → LayoutState R → LayoutState R
    unfolding put_parsed
    restore cancelled s = if cancelled then s else put_parsed s (parse_layout s.server)

    put_saved : LayoutState R → Option (PaneNode (Number R)) → LayoutState R
    put_saved s none = s
    put_saved s (some tree) = record s { save_timer = none; server = to_json tree }

    -- The pending timeout fires, and the request succeeds.
    unfoldable pub save : LayoutState R → LayoutState R
    unfolding put_saved
    save s = put_saved s s.save_timer

  -- The timeout fires, and the request fails, which is ignored.
  unfoldable pub lose : LayoutState R → LayoutState R
  lose s = record s { save_timer = none }

pub data Action (R : Type 0) : Type 0 where
  focused : (pane_id : String) → Action R
  assigned : (pane_id tm_id : String) → Action R
  divided : (pane_id : String) (dir : SplitDir) (split_id new_id : String) → Action R
  closed : (pane_id new_id : String) → Action R
  dragged : (split_id : String) (ratio : Number R) → Action R
  unplaced : (tm_id : String) → Action R
  shown : (tm_id : String) → Action R
  restored : (cancelled : Bool) → Action R
  saved lost : Action R

module _ {R : Type 0} ⦃r : Reals R⦄ where
  unfoldable pub act : LayoutState R → Action R → LayoutState R
  act s (focused p) = focus_pane p s
  act s (assigned p tm) = assign_session p tm s
  act s (divided p dir split_id new_id) = split_pane p dir split_id new_id s
  act s (closed p new_id) = close_pane p new_id s
  act s (dragged split_id ratio) = change_ratio split_id ratio s
  act s (unplaced tm) = unplace_session tm s
  act s (shown tm) = (focus_session tm s).0
  act s (restored cancelled) = restore cancelled s
  act s saved = save s
  act s lost = lose s
