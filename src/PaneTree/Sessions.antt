-- ===== src/PaneTree/Sessions.antt =====
-- `removeSession`, `placedSessionIds`, and how often a session is shown.
use oh_my_terminal.Base.{
  ℕ, ◌+◌, ◌≤◌, ◌≡◌, ◌↔◌, ◌⊎◌, sym, ap, subst, ◌∙◌, String, String-discrete, Option, none, some,
  List, [], ◌∷◌, ◌++◌, map, ite, true, ◌||◌, arith, refl, ◌≢◌,
}
use mathlib.Core.List.{map-append}
use oh_my_terminal.Base.Number.{Reals, Number}
use oh_my_terminal.PaneTree.{
  SplitDir, split_leaf, PaneNode, leaf, split, Session-discrete, set_has, set_add, add_session,
  placed_walk, placed_session_ids, remove_session, set_leaf_session,
}
use oh_my_terminal.PaneTree.Panes.{
  Pane, pane, panes, expand, one_if, count, count_leaf, count_split, count_session, IsDistinct,
}
use oh_my_terminal.PaneTree.Replace.{
  count_pane, count_pane-panes, panes-set_leaf_session, insert_after,
}
use oh_my_terminal.PaneTree.Edits.{panes-split_leaf}

-- The pane without the session.
abbrev pub clear : String → Pane → Pane
clear s q = pane q.id (ite (Session-discrete q.session (some s)) none q.session)

-- How many panes of a list show the session.
count_in : String → List Pane → ℕ
count_in s [] = 0
count_in s (q ∷ qs) = one_if (Session-discrete q.session (some s)) + count_in s qs

count_in-append :
    (s : String) (xs ys : List Pane) → count_in s (xs ++ ys) ≡ count_in s xs + count_in s ys
unfolding count_in
count_in-append s [] ys = omega arith
count_in-append s (q ∷ qs) ys = omega (arith, count_in-append s qs ys)

count_in-expand :
    (s tm id : String) (l : List Pane)
    → tm ≢ s
    → count_in s (expand id (pane id (some tm) ∷ []) l) ≤ count_in s l
unfolding count_in expand
count_in-expand s tm id [] h = omega arith
count_in-expand s tm id (q ∷ qs) h = ground (arith, count_in-expand s tm id qs h)

count_in-expand_new :
    (tm id : String) (l : List Pane)
    → count_in tm l ≡ 0
    → count_in tm (expand id (pane id (some tm) ∷ []) l) ≡ count_pane id l
unfolding count_in expand count_pane
count_in-expand_new tm id [] e = refl
count_in-expand_new tm id (q ∷ qs) e = ground (arith, count_in-expand_new tm id qs)

set_has-append :
    (xs ys : List String) (x : String) → set_has (xs ++ ys) x ≡ (set_has xs x || set_has ys x)
unfolding set_has
set_has-append [] ys x = refl
set_has-append (z ∷ zs) ys x = ground (arith, set_has-append zs ys x)

set_has-set_add :
    (out : List String) (x y : String)
    → set_has (set_add out x) y ≡ (set_has out y || set_has (x ∷ []) y)
unfolding set_add
set_has-set_add out x y = ground (arith, set_has-append out (x ∷ []) y)

module _ {A : Type 0} where
  count_in-panes : (s : String) (t : PaneNode A) → count_in s (panes t) ≡ count_session s t
  unfolding count_in panes count_session
  count_in-panes s (leaf i o) = omega arith
  count_in-panes s (split i d r a b) =
      omega (arith, count_in-append s (panes a) (panes b), count_in-panes s a, count_in-panes s b)

  -- `removeSession` empties the panes that show the session, and changes nothing else.
  panes-remove_session :
      (s : String) (t : PaneNode A) → panes (remove_session t s) ≡ map (clear s) (panes t)
  unfolding panes remove_session
  panes-remove_session s (leaf i o) = ground arith
  panes-remove_session s (split i d r a b) =
      simp (panes-remove_session s a, panes-remove_session s b, map-append)

  pub count-remove_session :
      (j s : String) (t : PaneNode A) → count j (remove_session t s) ≡ count j t
  unfolding remove_session count_leaf count_split
  count-remove_session j s (leaf i o) = ground arith
  count-remove_session j s (split i d r a b) =
      omega (arith, count-remove_session j s a, count-remove_session j s b)

  -- Afterwards no pane shows the session, and every other one is shown as often as before.
  pub count_session-remove_session :
      (s : String) (t : PaneNode A) → count_session s (remove_session t s) ≡ 0
  unfolding remove_session count_session
  count_session-remove_session s (leaf i o) = ground arith
  count_session-remove_session s (split i d r a b) =
      omega (arith, count_session-remove_session s a, count_session-remove_session s b)

  pub count_session-remove_session_ne :
      (s s' : String) (t : PaneNode A)
      → s ≢ s'
      → count_session s' (remove_session t s) ≡ count_session s' t
  unfolding remove_session count_session
  count_session-remove_session_ne s s' (leaf i o) h = ground arith
  count_session-remove_session_ne s s' (split i d r a b) h =
      omega
        (arith, count_session-remove_session_ne s s' a h, count_session-remove_session_ne s s' b h)

  pub count_session-remove_session_le :
      (s s' : String) (t : PaneNode A) → count_session s' (remove_session t s) ≤ count_session s' t
  count_session-remove_session_le s s' t = elim (String-discrete s s') [
    | yes p ↦ omega (
      arith,
      subst (λ x. count_session x (remove_session t s) ≡ 0) p (count_session-remove_session s t),
    )
    | no p ↦ omega (arith, count_session-remove_session_ne s s' t p)
  ]

  pub count_leaf-remove_session :
      (j s : String) (t : PaneNode A) → count_leaf j (remove_session t s) ≡ count_leaf j t
  unfolding remove_session count_leaf
  count_leaf-remove_session j s (leaf i o) = ground arith
  count_leaf-remove_session j s (split i d r a b) =
      omega (arith, count_leaf-remove_session j s a, count_leaf-remove_session j s b)

  placed_walk_has :
      (s : String) (t : PaneNode A) (out : List String)
      → (set_has (placed_walk t out) s ≡ true) ↔ ((set_has out s ≡ true) ⊎ (1 ≤ count_session s t))
  unfolding placed_walk count_session add_session set_has
  placed_walk_has s (leaf i none) out = ground arith
  placed_walk_has s (leaf i (some x)) out = ground (arith, set_has-set_add out x s)
  placed_walk_has s (split i d r a b) out =
      ground (arith, placed_walk_has s a out, placed_walk_has s b (placed_walk a out))

  -- `placedSessionIds` holds exactly the sessions that some pane shows.
  pub placed_session_ids_iff :
      (s : String) (t : PaneNode A)
      → (set_has (placed_session_ids t) s ≡ true) ↔ (1 ≤ count_session s t)
  unfolding placed_session_ids set_has
  placed_session_ids_iff s t = ground (arith, placed_walk_has s t [])

  count_in-set_leaf_session :
      (t : PaneNode A) (id s : String) (o : Option String)
      → IsDistinct t
      → count_session s (set_leaf_session t id o)
        ≡ count_in s (expand id (pane id o ∷ []) (panes t))
  count_in-set_leaf_session t id s o u =
      sym (count_in-panes s (set_leaf_session t id o))
      ∙ ap (count_in s) (panes-set_leaf_session t id o u)

  -- In what `assignSession` makes of a tree without repeated ids, the session is shown exactly as
  -- often as the tree has panes with the id.
  pub count_session-assign :
      (t : PaneNode A) (id tm : String)
      → IsDistinct t
      → count_session tm (set_leaf_session (remove_session t tm) id (some tm)) ≡ count_leaf id t
  count_session-assign t id tm u =
      let v : IsDistinct (remove_session t tm) = λ j. rw (count-remove_session j tm t) (u j) in
      count_in-set_leaf_session (remove_session t tm) id tm (some tm) v
      ∙ count_in-expand_new tm id (panes (remove_session t tm))
          (count_in-panes tm (remove_session t tm) ∙ count_session-remove_session tm t)
      ∙ count_pane-panes id (remove_session t tm)
      ∙ count_leaf-remove_session id tm t

  pub count_session-assign_ne :
      (t : PaneNode A) (id tm s : String)
      → IsDistinct t
      → tm ≢ s
      → count_session s (set_leaf_session (remove_session t tm) id (some tm)) ≤ count_session s t
  count_session-assign_ne t id tm s u h =
      let v : IsDistinct (remove_session t tm) = λ j. rw (count-remove_session j tm t) (u j) in
      omega (
        arith,
        count_in-set_leaf_session (remove_session t tm) id s (some tm) v,
        count_in-expand s tm id (panes (remove_session t tm)) h,
        count_in-panes s (remove_session t tm),
        count_session-remove_session_ne tm s t h,
      )

  -- An assignment shows no session twice that was not.
  pub count_session-assign_le :
      (t : PaneNode A) (id tm s : String)
      → IsDistinct t
      → count_session s t ≤ 1
      → count_session s (set_leaf_session (remove_session t tm) id (some tm)) ≤ 1
  count_session-assign_le t id tm s u h = elim (String-discrete tm s) [
    | yes p ↦
        subst (λ x. count_session x (set_leaf_session (remove_session t tm) id (some tm)) ≤ 1) p
          (omega (arith, count_session-assign t id tm u, u id))
    | no p ↦ omega (arith, count_session-assign_ne t id tm s u p)
  ]

  -- In a tree without repeated ids, what `assignSession` does to the tree puts the session in the
  -- pane with the id, empties any other pane that showed it and changes no other pane.
  pub panes-assign :
      (t : PaneNode A) (id tm : String)
      → IsDistinct t
      → panes (set_leaf_session (remove_session t tm) id (some tm))
        ≡ expand id (pane id (some tm) ∷ []) (map (clear tm) (panes t))
  panes-assign t id tm u =
      panes-set_leaf_session (remove_session t tm) id (some tm)
        (λ j. rw (count-remove_session j tm t) (u j))
      ∙ ap (expand id (pane id (some tm) ∷ [])) (panes-remove_session tm t)

count_in-insert_after :
    (s id new_id : String) (l : List Pane) → count_in s (insert_after id new_id l) ≡ count_in s l
unfolding count_in insert_after
count_in-insert_after s id new_id [] = refl
count_in-insert_after s id new_id (q ∷ qs) = ground (arith, count_in-insert_after s id new_id qs)

-- Splitting a pane shows no session more often.
pub count_session-split_leaf :
    {R : Type 0} ⦃r : Reals R⦄ (s : String) (t : PaneNode (Number R)) (id : String) (dir : SplitDir)
    (split_id new_id : String)
    → IsDistinct t
    → count_session s (split_leaf t id dir split_id new_id) ≡ count_session s t
count_session-split_leaf s t id dir split_id new_id u =
    sym (count_in-panes s (split_leaf t id dir split_id new_id))
    ∙ ap (count_in s) (panes-split_leaf t id dir split_id new_id u)
    ∙ count_in-insert_after s id new_id (panes t)
    ∙ count_in-panes s t
