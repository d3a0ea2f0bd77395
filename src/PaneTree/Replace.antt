-- ===== src/PaneTree/Replace.antt =====
-- `replaceNode`, and with it `setLeafSession` and `splitLeaf`, on the view as a list of panes.
use mathlib.Core.Option
use oh_my_terminal.Base.{
  ℕ, ◌+◌, ◌≤◌, ◌≡◌, String, Option, none, some, List, [], ◌∷◌, ◌++◌, ite, String-discrete,
  append-nil, inl, inr, Option-cases, arith, refl, ◌∙◌, sym,
}
use oh_my_terminal.PaneTree.{
  PaneNode, leaf, split, find_leaf, replace_node, set_leaf_session, with_session,
}
use oh_my_terminal.PaneTree.Panes.{
  Pane, pane, panes, expand, expand-append, one_if, count, count_leaf, count_split, IsDistinct,
  absent, present, find_leaf-Found,
}

-- The pane with an id gets a new pane behind it.
unfoldable pub insert_after : String → String → List Pane → List Pane
insert_after id new_id [] = []
insert_after id new_id (q ∷ qs) =
    q
    ∷ ite (String-discrete q.id id) (pane new_id none ∷ insert_after id new_id qs)
        (insert_after id new_id qs)

-- How many panes of a list have the id, and the session of the first.
unfoldable pub count_pane : String → List Pane → ℕ
count_pane id [] = 0
count_pane id (q ∷ qs) = one_if (String-discrete q.id id) + count_pane id qs

unfoldable pub session_of : String → List Pane → Option (Option String)
session_of id [] = none
session_of id (q ∷ qs) = ite (String-discrete q.id id) (some q.session) (session_of id qs)

count_pane-append :
    (id : String) (xs ys : List Pane)
    → count_pane id (xs ++ ys) ≡ count_pane id xs + count_pane id ys
unfolding count_pane
count_pane-append id [] ys = omega arith
count_pane-append id (q ∷ qs) ys = omega (arith, count_pane-append id qs ys)

session_of-append_some :
    (id : String) (xs ys : List Pane) (s : Option String)
    → session_of id xs ≡ some s
    → session_of id (xs ++ ys) ≡ some s
unfolding session_of
session_of-append_some id [] ys s e = cc
session_of-append_some id (q ∷ qs) ys s e = ground (arith, session_of-append_some id qs ys s)

session_of-append_none :
    (id : String) (xs ys : List Pane)
    → session_of id xs ≡ none
    → session_of id (xs ++ ys) ≡ session_of id ys
unfolding session_of
session_of-append_none id [] ys e = refl
session_of-append_none id (q ∷ qs) ys e = ground (arith, session_of-append_none id qs ys)

pub expand_absent : (id : String) (ps l : List Pane) → count_pane id l ≡ 0 → expand id ps l ≡ l
unfolding expand count_pane
expand_absent id ps [] e = refl
expand_absent id ps (q ∷ qs) e = ground (arith, expand_absent id ps qs)

pub insert_after_absent :
    (id new_id : String) (l : List Pane) → count_pane id l ≡ 0 → insert_after id new_id l ≡ l
unfolding insert_after count_pane
insert_after_absent id new_id [] e = refl
insert_after_absent id new_id (q ∷ qs) e = ground (arith, insert_after_absent id new_id qs)

pub expand-eq-insert_after :
    (id new_id : String) (s : Option String) (l : List Pane)
    → count_pane id l ≤ 1
    → session_of id l ≡ some s
    → expand id (pane id s ∷ pane new_id none ∷ []) l ≡ insert_after id new_id l
unfolding expand insert_after count_pane session_of
expand-eq-insert_after id new_id s [] h e = refl
expand-eq-insert_after id new_id s (q ∷ qs) h e = ground (
  arith,
  expand-eq-insert_after id new_id s qs,
  expand_absent id (pane id s ∷ pane new_id none ∷ []) qs,
  insert_after_absent id new_id qs,
)

module _ {A : Type 0} where
  pub count_pane-panes : (id : String) (t : PaneNode A) → count_pane id (panes t) ≡ count_leaf id t
  unfolding count_pane panes count_leaf
  count_pane-panes id (leaf i s) = omega arith
  count_pane-panes id (split i d r a b) = omega (
    arith,
    count_pane-append id (panes a) (panes b),
    count_pane-panes id a,
    count_pane-panes id b,
  )

  -- `findLeaf` is the lookup in the list of panes.
  pub find_leaf-eq :
      (id : String) (t : PaneNode A)
      → find_leaf t id ≡ Option.map (leaf id) (session_of id (panes t))
  unfolding find_leaf panes session_of
  find_leaf-eq id (leaf i s) = ground arith
  find_leaf-eq id (split i d r a b) = elim (Option-cases (session_of id (panes a))) [
    | inl e ↦ ground (
      arith,
      find_leaf-eq id a,
      find_leaf-eq id b,
      session_of-append_none id (panes a) (panes b) e,
    )
    | inr (s, e) ↦
        ground (arith, find_leaf-eq id a, session_of-append_some id (panes a) (panes b) s e)
  ]

  pub panes-replace_node :
      (id : String) (n t : PaneNode A)
      → count_split id t ≡ 0
      → panes (replace_node t id n) ≡ expand id (panes n) (panes t)
  unfolding panes replace_node expand count_split
  panes-replace_node id n (leaf i s) e = ground (arith, append-nil (panes n))
  panes-replace_node id n (split i d r a b) e = ground (
    arith,
    panes-replace_node id n a,
    panes-replace_node id n b,
    expand-append id (panes n) (panes a) (panes b),
  )

  pub replace_node_absent :
      (id : String) (n t : PaneNode A) → count id t ≡ 0 → replace_node t id n ≡ t
  unfolding replace_node count_leaf count_split
  replace_node_absent id n (leaf i s) e = ground arith
  replace_node_absent id n (split i d r a b) e =
      ground (arith, replace_node_absent id n a, replace_node_absent id n b)

  -- The replaced leaf's ids go, and those of the new node come.
  pub count-replace_node :
      (j id : String) (n t : PaneNode A)
      → count_split id t ≡ 0
      → count_leaf id t ≡ 1
      → count j (replace_node t id n) + one_if (String-discrete id j) ≡ count j t + count j n
  unfolding replace_node count_leaf count_split
  count-replace_node j id n (leaf i s) e f = ground arith
  count-replace_node j id n (split i d r a b) e f = ground (
    arith,
    count-replace_node j id n a,
    count-replace_node j id n b,
    replace_node_absent id n a,
    replace_node_absent id n b,
  )

  pub count_split-eq-zero :
      (id : String) (t : PaneNode A)
      → IsDistinct t
      → 1 ≤ count_leaf id t
      → (count_split id t ≡ 0) × (count_leaf id t ≡ 1)
  count_split-eq-zero id t u h = omega (arith, u id)

  -- In a tree without repeated ids, `setLeafSession` shows the session in the pane with the id and
  -- changes no other pane; without such a pane it changes nothing.
  pub panes-set_leaf_session :
      (t : PaneNode A) (id : String) (o : Option String)
      → IsDistinct t
      → panes (set_leaf_session t id o) ≡ expand id (pane id o ∷ []) (panes t)
  unfolding set_leaf_session panes
  panes-set_leaf_session t id o u = elim (find_leaf-Found id t) [
    | absent e none_here ↦
        rw (e, with_session)
          (sym (expand_absent id (pane id o ∷ []) (panes t) (count_pane-panes id t ∙ none_here)))
    | present s e here ↦
        rw (e, with_session)
          (panes-replace_node id (leaf id o) t (count_split-eq-zero id t u here).0)
  ]
