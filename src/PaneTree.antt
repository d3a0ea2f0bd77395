-- ===== src/PaneTree.antt =====
-- frontend/src/features/split/paneTree.ts: the binary tree of panes. An operation there returns
-- its argument itself where nothing changed; only `removeNode` reads that, and its walk here says
-- `unchanged` for it. The ids that `newPaneId` draws are arguments.
pub mod Panes
pub mod Replace
pub mod Edits
pub mod Remove
pub mod Sessions
pub mod Ratio
pub mod Shows
mod Tests
use oh_my_terminal.Base.{
  ℕ, suc, String, Option, none, some, List, [], ◌∷◌, ◌++◌, ite, String-discrete, Bool, true, false,
  if◌then◌else◌,
}
use oh_my_terminal.Base.Number.{Reals, Number, num, math_min, math_max}

pub data SplitDir : Type 0 where
  h v : SplitDir

-- `A` is the type of the ratios.
pub data PaneNode (A : Type 0) : Type 0 where
  leaf : (id : String) (session_id : Option String) → PaneNode A
  split : (id : String) (dir : SplitDir) (ratio : A) (first second : PaneNode A) → PaneNode A

unfoldable pub Session-discrete : Discrete (Option String)
unfolding String-discrete
Session-discrete = hlevel String-discrete

-- A `Set` of strings, in the order of insertion.
unfoldable pub set_has : List String → String → Bool
set_has [] x = false
set_has (y ∷ ys) x = ite (String-discrete y x) true (set_has ys x)

unfoldable pub set_add : List String → String → List String
unfolding set_has
set_add out x = if set_has out x then out else out ++ x ∷ []

-- What `removeNode` returns: its argument itself, null, or another node.
pub data Removal (A : Type 0) : Type 0 where
  unchanged gone : Removal A
  changed : PaneNode A → Removal A

add_session : List String → Option String → List String
add_session out none = out
add_session out (some s) = set_add out s

module _ {A : Type 0} where
  abbrev pub node_id : PaneNode A → String
  node_id (leaf id _) = id
  node_id (split id _ _ _ _) = id

  placed_walk : PaneNode A → List String → List String
  unfolding set_add add_session
  placed_walk (leaf _ session_id) out = add_session out session_id
  placed_walk (split _ _ _ first second) out = placed_walk second (placed_walk first out)

  unfoldable pub placed_session_ids : PaneNode A → List String
  unfolding placed_walk
  placed_session_ids node = placed_walk node []

  unfoldable pub find_leaf : PaneNode A → String → Option (PaneNode A)
  find_leaf (leaf i s) id = ite (String-discrete i id) (some (leaf i s)) none
  find_leaf (split _ _ _ first second) id = elim (find_leaf first id) [
    | some n ↦ some n
    | none ↦ find_leaf second id
  ]

  unfoldable pub replace_node : PaneNode A → String → PaneNode A → PaneNode A
  replace_node (leaf i s) id next = ite (String-discrete i id) next (leaf i s)
  replace_node (split i dir ratio first second) id next =
      ite (String-discrete i id) next
        (split i dir ratio (replace_node first id next) (replace_node second id next))

  -- The last part of `removeNode`, from the results of the two recursive calls.
  remove_below : String → SplitDir → A → PaneNode A → PaneNode A → Removal A → Removal A → Removal A
  remove_below i dir ratio first second gone _ = changed second
  remove_below i dir ratio first second (changed n) _ = changed (split i dir ratio n second)
  remove_below i dir ratio first second unchanged gone = changed first
  remove_below i dir ratio first second unchanged (changed n) = changed (split i dir ratio first n)
  remove_below i dir ratio first second unchanged unchanged = unchanged

  remove_walk : PaneNode A → String → Removal A
  remove_walk (leaf i s) id = ite (String-discrete i id) gone unchanged
  remove_walk (split i dir ratio first second) id = ite (String-discrete i id) gone (
      ite (String-discrete (node_id first) id) (changed second) (
        ite (String-discrete (node_id second) id) (changed first)
          (remove_below i dir ratio first second (remove_walk first id) (remove_walk second id))))

  removal_result : PaneNode A → Removal A → Option (PaneNode A)
  removal_result root unchanged = some root
  removal_result root gone = none
  removal_result root (changed n) = some n

  unfoldable pub remove_node : PaneNode A → String → Option (PaneNode A)
  unfolding remove_walk remove_below removal_result
  remove_node root id = removal_result root (remove_walk root id)

  with_session : PaneNode A → String → Option String → Option (PaneNode A) → PaneNode A
  unfolding replace_node
  with_session root leaf_id session_id none = root
  with_session root leaf_id session_id (some (split _ _ _ _ _)) = root
  with_session root leaf_id session_id (some (leaf i _)) =
      replace_node root leaf_id (leaf i session_id)

  unfoldable pub set_leaf_session : PaneNode A → String → Option String → PaneNode A
  unfolding with_session find_leaf
  set_leaf_session root leaf_id session_id =
      with_session root leaf_id session_id (find_leaf root leaf_id)

  unfoldable pub remove_session : PaneNode A → String → PaneNode A
  remove_session (leaf i s) session_id =
      ite (Session-discrete s (some session_id)) (leaf i none) (leaf i s)
  remove_session (split i dir ratio first second) session_id =
      split i dir ratio (remove_session first session_id) (remove_session second session_id)

  unfoldable pub first_leaf_id : PaneNode A → String
  first_leaf_id (leaf i _) = i
  first_leaf_id (split _ _ _ first _) = first_leaf_id first

module _ {R : Type 0} ⦃r : Reals R⦄ where
  abbrev pub default_ratio : Number R
  default_ratio = num r.half

  abbrev pub ratio_min : Number R
  ratio_min = num r.tenth

  abbrev pub ratio_max : Number R
  ratio_max = num r.nine_tenths

  split_target :
      PaneNode (Number R)
      → String
      → SplitDir
      → String
      → String
      → Option (PaneNode (Number R))
      → PaneNode (Number R)
  unfolding replace_node
  split_target root leaf_id dir split_id new_id none = root
  split_target root leaf_id dir split_id new_id (some (split _ _ _ _ _)) = root
  split_target root leaf_id dir split_id new_id (some (leaf i s)) =
      replace_node root leaf_id (split split_id dir default_ratio (leaf i s) (leaf new_id none))

  -- `split_id` and `new_id` are the results of the two calls of `newPaneId`.
  unfoldable pub split_leaf :
      PaneNode (Number R) → String → SplitDir → String → String → PaneNode (Number R)
  unfolding split_target find_leaf
  split_leaf root leaf_id dir split_id new_id =
      split_target root leaf_id dir split_id new_id (find_leaf root leaf_id)

  unfoldable pub clamp_ratio : Number R → Number R
  clamp_ratio ratio = math_min ratio_max (math_max ratio_min ratio)

  ratio_walk : PaneNode (Number R) → String → Number R → PaneNode (Number R)
  ratio_walk (leaf i s) split_id clamped = leaf i s
  ratio_walk (split i dir ratio first second) split_id clamped =
      ite (String-discrete i split_id) (split i dir clamped first second)
        (split i dir ratio (ratio_walk first split_id clamped) (ratio_walk second split_id clamped))

  unfoldable pub set_ratio : PaneNode (Number R) → String → Number R → PaneNode (Number R)
  unfolding ratio_walk clamp_ratio
  set_ratio root split_id ratio = ratio_walk root split_id (clamp_ratio ratio)
