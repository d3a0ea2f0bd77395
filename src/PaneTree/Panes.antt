-- ===== src/PaneTree/Panes.antt =====
-- The view of a tree as its panes in order, and the counting of ids.
use oh_my_terminal.Base.{
  ℕ, ◌+◌, ◌≤◌, ◌≡◌, String, Option, none, some, List, [], ◌∷◌, ◌++◌, ite, String-discrete,
  append_assoc, arith, refl,
}
use oh_my_terminal.PaneTree.{PaneNode, leaf, split, find_leaf, first_leaf_id, Session-discrete}

pub record Pane : Type 0 where
  pub id : String
  pub session : Option String

abbrev pub pane : String → Option String → Pane
pane i s = record { id = i; session = s }

-- What a list has in place of each pane with the id.
unfoldable pub expand : String → List Pane → List Pane → List Pane
expand id ps [] = []
expand id ps (q ∷ qs) = ite (String-discrete q.id id) ps (q ∷ []) ++ expand id ps qs

pub expand-append :
    (id : String) (ps xs ys : List Pane)
    → expand id ps (xs ++ ys) ≡ expand id ps xs ++ expand id ps ys
unfolding expand
expand-append id ps [] ys = refl
expand-append id ps (q ∷ qs) ys = simp (expand-append id ps qs ys, append_assoc)

abbrev pub one_if : {P : Type 0} → Dec P → ℕ
one_if d = ite d 1 0

module _ {A : Type 0} where
  unfoldable pub panes : PaneNode A → List Pane
  panes (leaf i s) = pane i s ∷ []
  panes (split _ _ _ first second) = panes first ++ panes second

  -- How many nodes, leaves and splits have the id, and how many leaves show the session.
  unfoldable pub count_leaf : String → PaneNode A → ℕ
  count_leaf id (leaf i s) = one_if (String-discrete i id)
  count_leaf id (split i _ _ first second) = count_leaf id first + count_leaf id second

  unfoldable pub count_split : String → PaneNode A → ℕ
  count_split id (leaf i s) = 0
  count_split id (split i _ _ first second) =
      one_if (String-discrete i id) + count_split id first + count_split id second

  abbrev pub count : String → PaneNode A → ℕ
  count id t = count_leaf id t + count_split id t

  unfoldable pub count_session : String → PaneNode A → ℕ
  count_session s (leaf i o) = one_if (Session-discrete o (some s))
  count_session s (split i _ _ first second) = count_session s first + count_session s second

  -- No two nodes share an id.
  abbrev pub IsDistinct : PaneNode A → Type 0
  IsDistinct t = (id : String) → count id t ≤ 1

  -- `findLeaf` finds exactly the ids of leaves, and what it finds is a leaf with the id.
  pub data Found (id : String) (t : PaneNode A) (o : Option (PaneNode A)) : Type 0 where
    absent : o ≡ none → count_leaf id t ≡ 0 → Found id t o
    present : (s : Option String) → o ≡ some (leaf id s) → 1 ≤ count_leaf id t → Found id t o

  pub find_leaf-Found : (id : String) (t : PaneNode A) → Found id t (find_leaf t id)
  unfolding find_leaf count_leaf
  find_leaf-Found id (leaf i s) = elim (String-discrete i id) [
    | yes p ↦ present s (ground arith) (ground arith)
    | no p ↦ absent (ground arith) (ground arith)
  ]
  find_leaf-Found id (split i d r a b) = elim (find_leaf-Found id a) [
    | present s e n ↦ present s (ground arith) (omega arith)
    | absent e n ↦ elim (find_leaf-Found id b) [
      | present s e' n' ↦ present s (ground arith) (omega arith)
      | absent e' n' ↦ absent (ground arith) (omega arith)
    ]
  ]

  pub count_leaf-first_leaf_id : (t : PaneNode A) → 1 ≤ count_leaf (first_leaf_id t) t
  unfolding first_leaf_id count_leaf
  count_leaf-first_leaf_id (leaf i s) = ground arith
  count_leaf-first_leaf_id (split i d r a b) = omega (arith, count_leaf-first_leaf_id a)
