-- ===== src/PaneTree/Remove.antt =====
-- `removeNode`: the pane with the id goes, its sibling takes the place of their split.
use oh_my_terminal.Base.{
  ℕ, ◌+◌, ◌≤◌, ◌≡◌, ◌⊎◌, dec_le, String, String-discrete, Option, none, some, List, [], ◌++◌, arith,
  refl, sym, ◌∙◌, ap₂, append-nil, inl, inr,
}
use oh_my_terminal.PaneTree.{
  PaneNode, SplitDir, leaf, split, node_id, remove_below, Removal, unchanged, gone, changed,
  remove_walk, remove_node, removal_result,
}
use oh_my_terminal.PaneTree.Panes.{
  Pane, panes, expand, expand-append, count, count_session, one_if, count_leaf, count_split,
  IsDistinct,
}

-- The panes that are left; none after `null`.
abbrev pub panes_left : {A : Type 0} → Option (PaneNode A) → List Pane
panes_left none = []
panes_left (some t) = panes t

module _ {A : Type 0} where
  removed : PaneNode A → Removal A → List Pane
  removed t o = panes_left (removal_result t o)

  expand_absent_panes :
      (id : String) (t : PaneNode A) → count_leaf id t ≡ 0 → expand id [] (panes t) ≡ panes t
  unfolding expand panes count_leaf
  expand_absent_panes id (leaf i s) e = ground arith
  expand_absent_panes id (split i d r a b) e = ground (
    arith,
    expand-append id [] (panes a) (panes b),
    expand_absent_panes id a,
    expand_absent_panes id b,
  )

  node_id-count : (id : String) (t : PaneNode A) → node_id t ≡ id → 1 ≤ count id t
  unfolding count_leaf count_split
  node_id-count id (leaf i s) e = ground arith
  node_id-count id (split i d r a b) e = ground arith

  -- A node that has the id, and is no split with it, is a leaf.
  leaf_of_node_id :
      (id : String) (t : PaneNode A)
      → node_id t ≡ id
      → count_split id t ≡ 0
      → (expand id [] (panes t) ≡ []) × (count_leaf id t ≡ 1)
  unfolding expand panes count_leaf count_split
  leaf_of_node_id id (leaf i s) e f = ground arith
  leaf_of_node_id id (split i d r a b) e f = ground arith

  remove_walk_absent :
      (id : String) (t : PaneNode A) → count id t ≡ 0 → remove_walk t id ≡ unchanged
  unfolding remove_walk remove_below count_leaf count_split
  remove_walk_absent id (leaf i s) e = ground arith
  remove_walk_absent id (split i d r a b) e = ground (
    arith,
    remove_walk_absent id a,
    remove_walk_absent id b,
    node_id-count id a,
    node_id-count id b,
  )

  -- The two results below a split, where the second changes nothing unless the first does not.
  panes-remove_below :
      (i : String) (d : SplitDir) (r : A) (a b : PaneNode A) (o p : Removal A)
      → (o ≡ unchanged) ⊎ (removed b p ≡ panes b)
      → removed (split i d r a b) (remove_below i d r a b o p) ≡ removed a o ++ removed b p
  unfolding removed removal_result remove_below panes
  panes-remove_below i d r a b unchanged gone h = sym (append-nil (panes a))
  panes-remove_below i d r a b unchanged (changed n) h = refl
  panes-remove_below i d r a b unchanged unchanged h = refl
  panes-remove_below i d r a b gone p h = ground arith
  panes-remove_below i d r a b (changed n) p h = ground arith

  -- At most one side of a split has the pane with the id.
  one_side :
      (id : String) (a b : PaneNode A)
      → count_split id a ≡ 0
      → count_split id b ≡ 0
      → count_leaf id a + count_leaf id b ≤ 1
      → (remove_walk a id ≡ unchanged) ⊎ (removed b (remove_walk b id) ≡ panes b)
  unfolding removed removal_result
  one_side id a b e f h = elim (dec_le 1 (count_leaf id a)) [
    | yes p ↦ inr (rw (remove_walk_absent id b (omega arith)))
    | no p ↦ inl (remove_walk_absent id a (omega arith))
  ]

module _ (A : Type 0) where
  panes-remove_leaf :
      (id i : String) (s : Option String)
      → removed {A = A} (leaf i s) (remove_walk (leaf i s) id)
        ≡ expand id [] (panes {A = A} (leaf i s))
  unfolding remove_walk removed removal_result expand panes
  panes-remove_leaf id i s = ground arith

module _ {A : Type 0} where
  -- The case of a split, where the two results below it are as claimed.
  panes-remove_split :
      (id i : String) (d : SplitDir) (r : A) (a b : PaneNode A)
      → count_split id (split i d r a b) ≡ 0
      → removed (split i d r a b) (remove_below i d r a b (remove_walk a id) (remove_walk b id))
        ≡ expand id [] (panes a) ++ expand id [] (panes b)
      → count_leaf id a + count_leaf id b ≤ 1
      → removed (split i d r a b) (remove_walk (split i d r a b) id)
        ≡ expand id [] (panes a) ++ expand id [] (panes b)
  unfolding remove_walk removed removal_result count_split
  panes-remove_split id i d r a b e below f = ground (
    arith,
    leaf_of_node_id id a,
    leaf_of_node_id id b,
    expand_absent_panes id a,
    expand_absent_panes id b,
    append-nil (panes a),
  )

  panes-remove_walk :
      (id : String) (t : PaneNode A)
      → count_split id t ≡ 0
      → count_leaf id t ≤ 1
      → removed t (remove_walk t id) ≡ expand id [] (panes t)
  unfolding panes count_leaf count_split
  panes-remove_walk id (leaf i s) e f = panes-remove_leaf A id i s
  panes-remove_walk id (split i d r a b) e f =
      let a_none : count_split id a ≡ 0 = omega arith in
      let b_none : count_split id b ≡ 0 = omega arith in
      let first = panes-remove_walk id a a_none (omega arith) in
      let second = panes-remove_walk id b b_none (omega arith) in
      let below =
        panes-remove_below i d r a b (remove_walk a id) (remove_walk b id)
          (one_side id a b a_none b_none f) in
      panes-remove_split id i d r a b e (below ∙ ap₂ ◌++◌ first second) f
      ∙ sym (expand-append id [] (panes a) (panes b))

  -- In a tree without repeated ids, `removeNode` at an id that no split has takes the pane with the
  -- id out of the list of panes and changes no other pane.
  pub panes-remove_node :
      (id : String) (t : PaneNode A)
      → IsDistinct t
      → count_split id t ≡ 0
      → panes_left (remove_node t id) ≡ expand id [] (panes t)
  unfolding remove_node removed
  panes-remove_node id t u e = panes-remove_walk id t e (omega (arith, u id))

-- A count of nodes that adds up over a tree does not grow.
module _ {A : Type 0} (f : PaneNode A → ℕ) (w : String → ℕ)
    (f_split : (i : String) (d : SplitDir) (r : A) (a b : PaneNode A)
      → f (split i d r a b) ≡ w i + f a + f b) where
  count_left : PaneNode A → Removal A → ℕ
  count_left t unchanged = f t
  count_left t gone = 0
  count_left t (changed n) = f n

  count-remove_below :
      (i : String) (d : SplitDir) (r : A) (a b : PaneNode A) (o p : Removal A)
      → count_left a o ≤ f a
      → count_left b p ≤ f b
      → count_left (split i d r a b) (remove_below i d r a b o p) ≤ f (split i d r a b)
  unfolding count_left remove_below
  count-remove_below i d r a b unchanged gone h k = omega (arith, f_split i d r a b)
  count-remove_below i d r a b unchanged (changed n) h k =
      omega (arith, f_split i d r a b, f_split i d r a n)
  count-remove_below i d r a b unchanged unchanged h k = omega arith
  count-remove_below i d r a b gone p h k = omega (arith, f_split i d r a b)
  count-remove_below i d r a b (changed n) p h k =
      omega (arith, f_split i d r a b, f_split i d r n b)

  count-remove_walk : (id : String) (t : PaneNode A) → count_left t (remove_walk t id) ≤ f t
  unfolding remove_walk count_left
  count-remove_walk id (leaf i s) = ground arith
  count-remove_walk id (split i d r a b) = ground (
    arith,
    f_split i d r a b,
    count-remove_below i d r a b (remove_walk a id) (remove_walk b id) (count-remove_walk id a)
        (count-remove_walk id b),
  )

  count-remove_node : (id : String) (t n : PaneNode A) → remove_node t id ≡ some n → f n ≤ f t
  unfolding remove_node removal_result count_left
  count-remove_node id t n e = ground (arith, count-remove_walk id t)

module _ {A : Type 0} where
  -- What `removeNode` leaves has no id more often than the tree had, and shows no session more
  -- often.
  pub count-remove_node_le :
      (j id : String) (t n : PaneNode A) → remove_node t id ≡ some n → count j n ≤ count j t
  unfolding count_leaf count_split
  count-remove_node_le j id =
      count-remove_node (count j) (λ i. one_if (String-discrete i j)) (λ i d r a b. omega arith) id

  pub count_session-remove_node_le :
      (s id : String) (t n : PaneNode A)
      → remove_node t id ≡ some n
      → count_session s n ≤ count_session s t
  unfolding count_session
  count_session-remove_node_le s id =
      count-remove_node (count_session s) (λ i. 0) (λ i d r a b. omega arith) id
