-- ===== src/PaneTree/Tests.antt =====
-- Runs of paneTree.ts on a tree of two panes, and its theorems at that tree.
use oh_my_terminal.Base.{
  apart, ℕ, ◌≡◌, String, String-discrete, none, some, [], ◌∷◌, arith, refl, ◌≢◌, ◌∙◌, sym, map,
}
use oh_my_terminal.Base.Number.{Number, num, thousandths}
use oh_my_terminal.PaneTree.{
  PaneNode, h, v, leaf, split, remove_node, remove_session, set_leaf_session, split_leaf, set_ratio,
}
use oh_my_terminal.PaneTree.Panes.{pane, panes, expand, count, count_leaf, count_split, IsDistinct}
use oh_my_terminal.PaneTree.Remove.{panes-remove_node, panes_left}
use oh_my_terminal.PaneTree.Sessions.{panes-assign, clear}

abbrev two : PaneNode (Number ℕ)
two = split "s" h (num 500) (leaf "a" (some "x")) (leaf "b" none)

a≢b : ◌≢◌ {A = String} "a" "b"
unfolding String-discrete
a≢b = apart "a" "b" refl

s≢a : ◌≢◌ {A = String} "s" "a"
unfolding String-discrete
s≢a = apart "s" "a" refl

s≢b : ◌≢◌ {A = String} "s" "b"
unfolding String-discrete
s≢b = apart "s" "b" refl

two-IsDistinct : IsDistinct two
unfolding count_leaf count_split
two-IsDistinct j = elim (String-discrete "a" j) [
  | yes p ↦ ground (arith, λ (q : "b" ≡ j). a≢b (p ∙ sym q), λ (q : "s" ≡ j). s≢a (q ∙ sym p))
  | no n ↦ ground (arith, λ (p : "b" ≡ j) (q : "s" ≡ j). s≢b (q ∙ sym p))
]

remove_two : remove_node two "a" ≡ some (leaf "b" none)
unfolding remove_node String-discrete
remove_two = refl

split_two :
    split_leaf two "b" v "t" "c"
    ≡ split "s" h
        (num 500)
        (leaf "a" (some "x"))
        (split "t" v (num 500) (leaf "b" none) (leaf "c" none))
unfolding split_leaf String-discrete
split_two = refl

drag_two : set_ratio two "s" (num 950) ≡ split "s" h (num 900) (leaf "a" (some "x")) (leaf "b" none)
unfolding set_ratio String-discrete
drag_two = refl

two-no_a : count_split "a" two ≡ 0
unfolding count_split String-discrete
two-no_a = refl

two-no_t : count "t" two ≡ 0
unfolding count_split count_leaf String-discrete
two-no_t = refl

two-no_c : count "c" two ≡ 0
unfolding count_split count_leaf String-discrete
two-no_c = refl

t≢c : ◌≢◌ {A = String} "t" "c"
unfolding String-discrete
t≢c = apart "t" "c" refl

panes-remove_node_example : panes_left (remove_node two "a") ≡ expand "a" [] (panes two)
panes-remove_node_example = panes-remove_node "a" two two-IsDistinct two-no_a

panes-assign_example :
    panes (set_leaf_session (remove_session two "x") "b" (some "x"))
    ≡ expand "b" (pane "b" (some "x") ∷ []) (map (clear "x") (panes two))
panes-assign_example = panes-assign two "b" "x" two-IsDistinct
