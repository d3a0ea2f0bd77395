-- ===== src/PaneTree/Shows.antt =====
-- The session of the pane that `findLeaf` finds, after `setLeafSession`.
use oh_my_terminal.Base.{◌≤◌, ◌≡◌, String, Option, some, arith}
use oh_my_terminal.PaneTree.{
  PaneNode, leaf, split, find_leaf, replace_node, set_leaf_session, with_session, remove_session,
}
use oh_my_terminal.PaneTree.Panes.{
  count_leaf, count_split, IsDistinct, absent, present, find_leaf-Found,
}
use oh_my_terminal.PaneTree.Replace.{count_split-eq-zero, replace_node_absent}
use oh_my_terminal.PaneTree.Sessions.{count-remove_session, count_leaf-remove_session}

module _ {A : Type 0} where
  -- The pane with the id shows the session.
  abbrev pub Shows : String → String → PaneNode A → Type 0
  Shows id tm t = find_leaf t id ≡ some (leaf id (some tm))

  find_leaf-replace_node :
      (id : String) (o : Option String) (t : PaneNode A)
      → count_split id t ≡ 0
      → 1 ≤ count_leaf id t
      → find_leaf (replace_node t id (leaf id o)) id ≡ some (leaf id o)
  unfolding find_leaf replace_node count_leaf count_split
  find_leaf-replace_node id o (leaf i s) e h = ground arith
  find_leaf-replace_node id o (split i d r a b) e h = elim (find_leaf-Found id a) [
    | present s p n ↦ ground (arith, find_leaf-replace_node id o a)
    | absent p n ↦
        ground (arith, replace_node_absent id (leaf id o) a, find_leaf-replace_node id o b)
  ]

  -- What `setLeafSession` puts into a pane of the tree is found there.
  Shows-set_leaf_session :
      (id tm : String) (t : PaneNode A)
      → IsDistinct t
      → 1 ≤ count_leaf id t
      → Shows id tm (set_leaf_session t id (some tm))
  unfolding set_leaf_session
  Shows-set_leaf_session id tm t u h = elim (find_leaf-Found id t) [
    | absent e none_here ↦ absurd (omega arith)
    | present s e here ↦
        rw (e, with_session)
          (find_leaf-replace_node id (some tm) t (count_split-eq-zero id t u here).0 here)
  ]

  -- In what `assignSession` makes of the tree, the pane shows the session.
  pub Shows-assign :
      (id tm : String) (t : PaneNode A)
      → IsDistinct t
      → 1 ≤ count_leaf id t
      → Shows id tm (set_leaf_session (remove_session t tm) id (some tm))
  Shows-assign id tm t u h =
      Shows-set_leaf_session id tm (remove_session t tm)
        (λ j. rw (count-remove_session j tm t) (u j)) (rw (count_leaf-remove_session id tm t) h)
