-- ===== src/PaneTree/Edits.antt =====
-- What `setLeafSession` and `splitLeaf` do to the panes and to the ids.
use mathlib.Core.Option
use oh_my_terminal.Base.{
  ◌+◌, ◌≤◌, ◌≡◌, String, Option, none, some, List, [], ◌∷◌, refl, if_pos, if_neg, String-discrete,
  arith, ◌≢◌, ◌∙◌, sym, ap,
}
use oh_my_terminal.Base.Number.{Reals, Number}
use oh_my_terminal.PaneTree.{
  PaneNode, SplitDir, leaf, split, find_leaf, set_leaf_session, with_session, split_leaf,
  split_target, default_ratio,
}
use oh_my_terminal.PaneTree.Panes.{
  Pane, pane, expand, panes, one_if, count, count_leaf, count_split, IsDistinct, absent, present,
  find_leaf-Found,
}
use oh_my_terminal.PaneTree.Replace.{
  insert_after, count_pane, panes-set_leaf_session, session_of, count_pane-panes,
  expand-eq-insert_after, insert_after_absent, find_leaf-eq, panes-replace_node, count-replace_node,
  count_split-eq-zero,
}

count_pane-expand :
    (j id : String) (o : Option String) (l : List Pane)
    → count_pane j (expand id (pane id o ∷ []) l) ≡ count_pane j l
unfolding count_pane expand
count_pane-expand j id o [] = refl
count_pane-expand j id o (q ∷ qs) = elim (String-discrete q.id id) [
  | yes p ↦
      rw (if_pos _ p)
        (omega (arith, count_pane-expand j id o qs, ap (λ x. one_if (String-discrete x j)) p))
  | no p ↦ rw (if_neg _ p) (omega (arith, count_pane-expand j id o qs))
]

count_pane-insert_after :
    (j id new_id : String) (l : List Pane)
    → count_pane j l ≤ count_pane j (insert_after id new_id l)
unfolding count_pane insert_after
count_pane-insert_after j id new_id [] = omega arith
count_pane-insert_after j id new_id (q ∷ qs) =
    ground (arith, count_pane-insert_after j id new_id qs)

module _ {A : Type 0} where
  -- The leaves keep their ids.
  pub count_leaf-set_leaf_session :
      (j id : String) (o : Option String) (t : PaneNode A)
      → IsDistinct t
      → count_leaf j (set_leaf_session t id o) ≡ count_leaf j t
  count_leaf-set_leaf_session j id o t u =
      sym (count_pane-panes j (set_leaf_session t id o))
      ∙ ap (count_pane j) (panes-set_leaf_session t id o u)
      ∙ count_pane-expand j id o (panes t)
      ∙ count_pane-panes j t

  pub count-set_leaf_session :
      (j id : String) (o : Option String) (t : PaneNode A)
      → IsDistinct t
      → count j (set_leaf_session t id o) ≡ count j t
  unfolding set_leaf_session count_leaf count_split
  count-set_leaf_session j id o t u = elim (find_leaf-Found id t) [
    | absent e _ ↦ rw (e, with_session)
    | present s e here ↦
        let (none_split, one_leaf) = count_split-eq-zero id t u here in
        rw (e, with_session)
          (omega (arith, count-replace_node j id (leaf id o) t none_split one_leaf))
  ]

  -- The session of the found leaf, read off the list of panes.
  session_of-panes :
      (id : String) (s : Option String) (t : PaneNode A)
      → find_leaf t id ≡ some (leaf id s)
      → session_of id (panes t) ≡ some s
  session_of-panes id s t e =
      let (o, found, same) = (Option.map-eq-some_iff _ _).0 (sym (find_leaf-eq id t) ∙ e) in
      let same_session : o ≡ s = cc same in found ∙ ap some same_session

module _ {R : Type 0} ⦃r : Reals R⦄ where
  -- In a tree without repeated ids, `splitLeaf` puts an empty pane behind the pane with the id and
  -- changes no other pane; without such a pane it changes nothing.
  pub panes-split_leaf :
      (t : PaneNode (Number R)) (id : String) (dir : SplitDir) (split_id new_id : String)
      → IsDistinct t
      → panes (split_leaf t id dir split_id new_id) ≡ insert_after id new_id (panes t)
  unfolding split_leaf panes
  panes-split_leaf t id dir split_id new_id u = elim (find_leaf-Found id t) [
    | absent e none_here ↦
        rw (e, split_target)
          (sym (insert_after_absent id new_id (panes t) (count_pane-panes id t ∙ none_here)))
    | present s e here ↦
        let (none_split, one_leaf) = count_split-eq-zero id t u here in
        rw (e, split_target)
          (panes-replace_node id (split split_id dir default_ratio (leaf id s) (leaf new_id none)) t
              none_split
            ∙ expand-eq-insert_after id new_id s (panes t)
                (rw (count_pane-panes id t) (omega arith)) (session_of-panes id s t e))
  ]

  pub count-split_leaf :
      (j : String) (t : PaneNode (Number R)) (id : String) (dir : SplitDir)
      (split_id new_id : String)
      → IsDistinct t
      → 1 ≤ count_leaf id t
      → count j (split_leaf t id dir split_id new_id)
        ≡ count j t + one_if (String-discrete split_id j) + one_if (String-discrete new_id j)
  unfolding split_leaf count_leaf count_split
  count-split_leaf j t id dir split_id new_id u there = elim (find_leaf-Found id t) [
    | absent e none_here ↦ absurd (omega arith)
    | present s e here ↦
        let (none_split, one_leaf) = count_split-eq-zero id t u here in
        rw (e, split_target)
          (omega (
            arith,
            count-replace_node j id
                (split split_id dir default_ratio (leaf id s) (leaf new_id none)) t none_split
                one_leaf,
          ))
  ]

  count-split_leaf_le :
      (j : String) (t : PaneNode (Number R)) (id : String) (dir : SplitDir)
      (split_id new_id : String)
      → IsDistinct t
      → count j (split_leaf t id dir split_id new_id)
        ≤ count j t + one_if (String-discrete split_id j) + one_if (String-discrete new_id j)
  unfolding split_leaf
  count-split_leaf_le j t id dir split_id new_id u = elim (find_leaf-Found id t) [
    | absent e none_here ↦ rw (e, split_target) (omega arith)
    | present s e here ↦ omega (arith, count-split_leaf j t id dir split_id new_id u here)
  ]

  -- Splitting with two new, different ids keeps the ids distinct.
  pub split_leaf-IsDistinct :
      (t : PaneNode (Number R)) (id : String) (dir : SplitDir) (split_id new_id : String)
      → IsDistinct t
      → count split_id t ≡ 0
      → count new_id t ≡ 0
      → split_id ≢ new_id
      → IsDistinct (split_leaf t id dir split_id new_id)
  split_leaf-IsDistinct t id dir split_id new_id u new₁ new₂ differ j =
      ground (arith, count-split_leaf_le j t id dir split_id new_id u, u j)

  -- No leaf goes.
  pub count_leaf-split_leaf :
      (j : String) (t : PaneNode (Number R)) (id : String) (dir : SplitDir)
      (split_id new_id : String)
      → IsDistinct t
      → count_leaf j t ≤ count_leaf j (split_leaf t id dir split_id new_id)
  count_leaf-split_leaf j t id dir split_id new_id u = omega (
    arith,
    count_pane-panes j (split_leaf t id dir split_id new_id),
    count_pane-panes j t,
    count_pane-insert_after j id new_id (panes t),
    ap (count_pane j) (panes-split_leaf t id dir split_id new_id u),
  )
