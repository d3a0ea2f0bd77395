-- ===== src/Wizard/Picker/Settling.antt =====
-- The picker comes to rest: with a server that answers about the folder that it has named with the
-- name itself, two answers are enough.
use oh_my_terminal.Base.{
  ℕ, suc, ◌≡◌, String, Option, none, some, List, [], ◌∷◌, true, false, ◌==◌, All, arith, refl, sym,
  ◌∙◌, ap, ap₂, subst, if◌then◌else◌, if_intro, Bool-cases, inl, inr,
}
use oh_my_terminal.Wizard.{take_request, drop_request}
use oh_my_terminal.Wizard.Picker.{
  FsBrowse, Picker, Reply, browsed, refused, replied, or_root, browse, rerun, is_selected,
  set_selected, conclude, settle, step,
}
use oh_my_terminal.Wizard.Picker.Runs.{count_run, IsAsked, IsSound, step-IsSound}

-- The place of the request of the run among those in flight; behind them all, if there is none.
unfoldable pub place_of : ℕ → List (ℕ × String) → ℕ
place_of g [] = 0
place_of g (x ∷ xs) = let rest = place_of g xs in if x.0 == g then 0 else suc rest

unfoldable pub reply_of : (String → Reply) → Option (ℕ × String) → Reply
reply_of server none = refused ""
reply_of server (some (g, path)) = server path

-- The server answers the request of the present run, if that is in flight.
unfoldable pub answer : (String → Reply) → Picker → Picker
unfolding place_of reply_of
answer server s =
    let place = place_of s.generation s.pending in
    step s (replied place (reply_of server (take_request place s.pending)))

-- What the server says about a folder that it has named has the same name.
abbrev pub KeepsNames : (String → Reply) → Type 0
KeepsNames server =
    (path : String) (res : FsBrowse)
    → server path ≡ browsed res
    → (again : FsBrowse) × (server res.path ≡ browsed again) × (again.path ≡ res.path)

take-absent :
    (g : ℕ) (xs : List (ℕ × String)) → count_run g xs ≡ 0 → take_request (place_of g xs) xs ≡ none
unfolding count_run place_of take_request
take-absent g [] e = refl
take-absent g (x ∷ xs) e = ground (arith, take-absent g xs)

take-present :
    (s : Picker) (xs : List (ℕ × String))
    → s.active ≡ true
    → All (IsAsked s) xs
    → count_run s.generation xs ≡ 1
    → take_request (place_of s.generation xs) xs ≡ some (s.generation, or_root s.selected)
unfolding count_run place_of take_request
take-present s [] v a e = absurd (cc e)
take-present s (x ∷ xs) v a e = elim (Bool-cases (x.0 == s.generation)) [
  | inl h ↦
      let same : x.0 ≡ s.generation = ground arith in
      rw h (ap₂ (λ g p. some (g, p)) same (a.0.1 v same))
  | inr h ↦ rw h (take-present s xs v a.1 (ground arith))
]

-- A picker that is at rest or shut gets no answer.
answer-absent :
    (server : String → Reply) (s : Picker)
    → count_run s.generation s.pending ≡ 0
    → answer server s ≡ s
unfolding answer step settle
answer-absent server s e = rw (take-absent s.generation s.pending e) refl

eq_self : (n : ℕ) → (n == n) ≡ true
eq_self n = ground arith

-- The picker without the request of its present run.
abbrev taken : Picker → Picker
taken s = record s { pending = drop_request (place_of s.generation s.pending) s.pending }

answer-present :
    (server : String → Reply) (s : Picker)
    → IsSound s
    → s.active ≡ true
    → s.loading ≡ true
    → answer server s ≡ conclude (server (or_root s.selected)) (taken s)
unfolding answer step settle reply_of
answer-present server s v on l =
    let found : take_request (place_of s.generation s.pending) s.pending
        ≡ some (s.generation, or_root s.selected) =
      take-present s s.pending on v.1 (ground arith) in
    rw (found, eq_self s.generation) refl

-- What a conclusion leads to: a picker that is not loading, or one that asks for the folder that the
-- server has named.
data Concluded (r : Reply) (t : Picker) : Type 0 where
  at_rest : t.loading ≡ false → Concluded r t
  asks_again :
      (res : FsBrowse)
      → r ≡ browsed res
      → t.selected ≡ some res.path
      → t.active ≡ true
      → Concluded r t

conclude-Concluded : (r : Reply) (s : Picker) → Concluded r (conclude r s)
unfolding conclude set_selected rerun browse
conclude-Concluded (refused m) s = at_rest refl
conclude-Concluded (browsed res) s =
    let shown : Picker = record s { data_shown = some res; loading = false } in
    let moved : Picker = record shown { selected = some res.path } in
    if_intro (Concluded (browsed res)) (is_selected s.selected res.path) shown (rerun moved)
      (λ _. at_rest refl)
      (λ _.
        if_intro (Concluded (browsed res)) s.active (browse moved) moved
          (λ on. asks_again res refl refl on) (λ _. at_rest refl))

is_selected_self : (o : Option String) (path : String) → o ≡ some path → is_selected o path ≡ true
is_selected_self none path e = absurd (cc e)
is_selected_self (some p) path e = ground arith

-- An answer that names the selected folder brings the picker to rest.
conclude-selected :
    (res : FsBrowse) (s : Picker)
    → s.selected ≡ some res.path
    → (conclude (browsed res) s).loading ≡ false
unfolding conclude set_selected
conclude-selected res s e = rw (is_selected_self s.selected res.path e) refl

answer-IsSound : (server : String → Reply) (s : Picker) → IsSound s → IsSound (answer server s)
unfolding answer
answer-IsSound server s v = step-IsSound s _ v

answer-rest :
    (server : String → Reply) (s : Picker)
    → IsSound s
    → s.loading ≡ false
    → (answer server s).loading ≡ false
answer-rest server s v l = rw (answer-absent server s (ground arith)) l

answer-Concluded :
    (server : String → Reply) (s : Picker)
    → IsSound s
    → s.active ≡ true
    → s.loading ≡ true
    → Concluded (server (or_root s.selected)) (answer server s)
answer-Concluded server s v on l =
    subst (Concluded (server (or_root s.selected))) (sym (answer-present server s v on l))
      (conclude-Concluded (server (or_root s.selected)) (taken s))

answer-selected :
    (server : String → Reply) (s : Picker) (res again : FsBrowse)
    → IsSound s
    → s.active ≡ true
    → s.loading ≡ true
    → s.selected ≡ some res.path
    → server res.path ≡ browsed again
    → again.path ≡ res.path
    → (answer server s).loading ≡ false
answer-selected server s res again v on l sel e same =
    let asked : server (or_root s.selected) ≡ browsed again =
      ap (λ o. server (or_root o)) sel ∙ e in
    ap (λ x. x.loading) (answer-present server s v on l)
    ∙ ap (λ r. (conclude r (taken s)).loading) asked
    ∙ conclude-selected again (taken s) (sel ∙ ap some (sym same))

-- With a server that answers about the folder that it has named with the name itself: whatever an
-- active picker has asked for, after two answers of the server it is not loading any more.
pub answer-settles :
    (server : String → Reply)
    → KeepsNames server
    → (s : Picker) → IsSound s
    → s.active ≡ true
    → (answer server (answer server s)).loading ≡ false
answer-settles server k s v on = elim (Bool-cases s.loading) [
  | inr l ↦
      answer-rest server (answer server s) (answer-IsSound server s v) (answer-rest server s v l)
  | inl l ↦
      let t = answer server s in
      let w = answer-IsSound server s v in
      elim (answer-Concluded server s v on l) [
        | at_rest q ↦ answer-rest server t w q
        | asks_again res e sel still ↦
            let (again, e', same) = k (or_root s.selected) res e in
            elim (Bool-cases t.loading) [
              | inr q ↦ answer-rest server t w q
              | inl q ↦ answer-selected server t res again w still q sel e' same
            ]
      ]
]
