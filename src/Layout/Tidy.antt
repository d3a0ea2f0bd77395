-- ===== src/Layout/Tidy.antt =====
-- Trees of a layout: ids are distinct, and a session is shown in one pane at most.
use oh_my_terminal.Base.{
  ◌≤◌, ◌≡◌, ◌≢◌, ◌∙◌, sym, subst, String, Option, none, some, String-discrete, if◌then◌else◌, arith,
  refl,
}
use oh_my_terminal.Base.Number.{Reals, Number}
use oh_my_terminal.PaneTree.{
  PaneNode, SplitDir, leaf, split, find_leaf, first_leaf_id, remove_node, remove_session,
  set_leaf_session, set_ratio, split_leaf,
}
use oh_my_terminal.PaneTree.Panes.{
  count, count_leaf, count_split, count_session, IsDistinct, absent, present, find_leaf-Found,
  count_leaf-first_leaf_id,
}
use oh_my_terminal.PaneTree.Edits.{
  count-set_leaf_session, count_leaf-set_leaf_session, split_leaf-IsDistinct,
}
use oh_my_terminal.PaneTree.Remove.{count-remove_node_le, count_session-remove_node_le}
use oh_my_terminal.PaneTree.Ratio.{count-set_ratio}
use oh_my_terminal.PaneTree.Sessions.{
  count-remove_session, count_session-remove_session_le, count_session-assign_le,
  count_session-split_leaf, count_leaf-remove_session,
}
use oh_my_terminal.Layout.{is_found, or_leaf, found_walk}

module _ {R : Type 0} where
  -- What holds of a tree of the layout.
  pub record IsTidy (t : PaneNode (Number R)) : Type 0 where
    pub distinct : IsDistinct t
    pub once : (s : String) → count_session s t ≤ 1

  pub leaf-IsTidy : (id : String) → IsTidy (leaf id none)
  unfolding count_leaf count_split count_session
  leaf-IsTidy id = record { distinct = λ j. ground arith; once = λ s. ground arith }

  pub remove_session-IsTidy :
      (tm : String) (t : PaneNode (Number R)) → IsTidy t → IsTidy (remove_session t tm)
  remove_session-IsTidy tm t v = record {
    distinct = λ j. rw (count-remove_session j tm t) (v.distinct j);
    once = λ s. omega (arith, count_session-remove_session_le tm s t, v.once s);
  }

  pub assign-IsTidy :
      (id tm : String) (t : PaneNode (Number R))
      → IsTidy t
      → IsTidy (set_leaf_session (remove_session t tm) id (some tm))
  assign-IsTidy id tm t v =
      let cleared = remove_session-IsTidy tm t v in
      record {
        distinct = λ j.
            rw (count-set_leaf_session j id (some tm) (remove_session t tm) cleared.distinct)
              (cleared.distinct j);
        once = λ s. count_session-assign_le t id tm s v.distinct (v.once s);
      }

  pub count_leaf-assign :
      (j id tm : String) (t : PaneNode (Number R))
      → IsTidy t
      → count_leaf j (set_leaf_session (remove_session t tm) id (some tm)) ≡ count_leaf j t
  count_leaf-assign j id tm t v =
      count_leaf-set_leaf_session j id (some tm) (remove_session t tm)
        (remove_session-IsTidy tm t v).distinct
      ∙ count_leaf-remove_session j tm t

  pub or_leaf-IsTidy :
      (id new_id : String) (t : PaneNode (Number R)) (o : Option (PaneNode (Number R)))
      → remove_node t id ≡ o
      → IsTidy t
      → IsTidy (or_leaf new_id o)
  unfolding or_leaf
  or_leaf-IsTidy id new_id t none e v = leaf-IsTidy new_id
  or_leaf-IsTidy id new_id t (some n) e v = record {
    distinct = λ j. omega (arith, count-remove_node_le j id t n e, v.distinct j);
    once = λ s. omega (arith, count_session-remove_node_le s id t n e, v.once s);
  }

  -- The focus that `closePane` chooses.
  pub refocus :
      (next : PaneNode (Number R)) (cur : String)
      → 1 ≤ count_leaf (if is_found (find_leaf next cur) then cur else first_leaf_id next) next
  unfolding is_found
  refocus next cur = elim (find_leaf-Found cur next) [
    | absent e _ ↦ rw e (count_leaf-first_leaf_id next)
    | present s e n ↦ rw e n
  ]

  -- What the walk of `focusSession` returns: the value it started with, where no pane shows the
  -- session, or the id of a pane of the tree.
  pub data Walked (tm : String) (t : PaneNode (Number R)) (found : String) (res : String)
      : Type 0 where
    missed : count_session tm t ≡ 0 → res ≡ found → Walked tm t found res
    hit : 1 ≤ count_session tm t → 1 ≤ count_leaf res t → Walked tm t found res

  pub found_walk-Walked :
      (tm : String) (t : PaneNode (Number R)) (found : String)
      → Walked tm t found (found_walk tm t found)
  unfolding found_walk count_leaf count_session
  found_walk-Walked tm (leaf i none) found = missed (ground arith) refl
  found_walk-Walked tm (leaf i (some x)) found = elim (String-discrete x tm) [
    | yes p ↦ hit (ground arith) (ground arith)
    | no p ↦ missed (ground arith) (ground arith)
  ]
  found_walk-Walked tm (split i d r a b) found = elim (found_walk-Walked tm a found) [
    | missed e p ↦ elim (found_walk-Walked tm b (found_walk tm a found)) [
      | missed f q ↦ missed (omega arith) (q ∙ p)
      | hit f q ↦ hit (omega arith) (omega arith)
    ]
    | hit e p ↦ elim (found_walk-Walked tm b (found_walk tm a found)) [
      | missed f q ↦
          let here = subst (λ x. 1 ≤ count_leaf x a) (sym q) p in
          hit (omega arith) (omega (arith, here))
      | hit f q ↦ hit (omega arith) (omega arith)
    ]
  ]

module _ {R : Type 0} ⦃r : Reals R⦄ where
  -- Both ids are new and they differ.
  pub record IsNew (t : PaneNode (Number R)) (split_id new_id : String) : Type 0 where
    pub split_new : count split_id t ≡ 0
    pub leaf_new : count new_id t ≡ 0
    pub differ : split_id ≢ new_id

  pub split-IsTidy :
      (p : String) (dir : SplitDir) (split_id new_id : String) (t : PaneNode (Number R))
      → IsNew t split_id new_id
      → IsTidy t
      → IsTidy (split_leaf t p dir split_id new_id)
  split-IsTidy p dir split_id new_id t n v = record {
    distinct =
        split_leaf-IsDistinct t p dir split_id new_id v.distinct n.split_new n.leaf_new n.differ;
    once = λ s. rw (count_session-split_leaf s t p dir split_id new_id v.distinct) (v.once s);
  }

  pub ratio-IsTidy :
      (id : String) (x : Number R) (t : PaneNode (Number R)) → IsTidy t → IsTidy (set_ratio t id x)
  ratio-IsTidy id x t v = record {
    distinct = λ j. omega (arith, count-set_ratio j id x t, v.distinct j);
    once = λ s. omega (arith, count-set_ratio s id x t, v.once s);
  }
