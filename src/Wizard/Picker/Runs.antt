-- ===== src/Wizard/Picker/Runs.antt =====
-- The requests of the picker in flight, in any run.
use oh_my_terminal.Base.{
  ℕ, zero, suc, ◌+◌, ◌≤◌, ◌<◌, ◌≡◌, String, Option, none, some, List, [], ◌∷◌, true, false, ◌&&◌,
  ◌==◌, All, arith, refl, ap, ap₂, subst, if◌then◌else◌, if_intro,
}
use oh_my_terminal.Wizard.{take_request, drop_request}
use oh_my_terminal.Wizard.Picker.{
  FsBrowse, Picker, Reply, browsed, refused, Event, opened, shut, reloaded, translated, navigated,
  replied, or_root, browse, rerun, is_selected, set_selected, conclude, settle, shut_down, step,
  run, unopened,
}

-- How many requests in flight are of the run.
unfoldable pub count_run : ℕ → List (ℕ × String) → ℕ
count_run g [] = 0
count_run g (x ∷ xs) = (if x.0 == g then 1 else 0) + count_run g xs

abbrev pub IsAsked : Picker → ℕ × String → Type 0
IsAsked s x =
    (x.0 ≤ s.generation) × (s.active ≡ true → x.0 ≡ s.generation → x.1 ≡ or_root s.selected)

-- One request in flight is of the present run while an active picker is loading, and none is at any
-- other time; that request asks for the selected folder.
abbrev pub IsSound : Picker → Type 0
IsSound s =
    (count_run s.generation s.pending ≡ (if s.active && s.loading then 1 else 0))
    × All (IsAsked s) s.pending

-- Requests of earlier runs stay so when the generation grows.
older :
    (s t : Picker) (xs : List (ℕ × String))
    → s.generation < t.generation
    → All (IsAsked s) xs
    → All (IsAsked t) xs × (count_run t.generation xs ≡ 0)
unfolding count_run
older s t [] h a = (tt, refl)
older s t (x ∷ xs) h a = ground (arith, older s t xs h)

-- Nothing that the requests depend on changes.
kept :
    (s t : Picker) (xs : List (ℕ × String))
    → s.generation ≡ t.generation
    → (t.active ≡ true → (s.active ≡ true) × (s.selected ≡ t.selected))
    → All (IsAsked s) xs
    → All (IsAsked t) xs
kept s t [] h k a = tt
kept s t (x ∷ xs) h k a = (ground (arith, ap or_root), kept s t xs h k a.1)

count_run-drop :
    (i : ℕ) (g : ℕ) (x : ℕ × String) (xs : List (ℕ × String))
    → take_request i xs ≡ some x
    → count_run g (drop_request i xs) + (if x.0 == g then 1 else 0) ≡ count_run g xs
unfolding count_run take_request drop_request
count_run-drop i g x [] e = absurd (cc)
count_run-drop zero g x (y ∷ xs) e = ground arith
count_run-drop (suc i) g x (y ∷ xs) e = ground (arith, count_run-drop i g x xs e)

All-drop :
    (P : ℕ × String → Type 0) (i : ℕ) (xs : List (ℕ × String))
    → All P xs
    → All P (drop_request i xs)
unfolding drop_request
All-drop P i [] a = tt
All-drop P zero (x ∷ xs) a = a.1
All-drop P (suc i) (x ∷ xs) a = (a.0, All-drop P i xs a.1)

-- `s` is the state before the change that makes the effect run again.
browse-IsSound :
    (s t : Picker)
    → s.generation ≡ t.generation
    → t.active ≡ true
    → All (IsAsked s) t.pending
    → IsSound (browse t)
unfolding browse count_run
browse-IsSound s t h v a =
    let (earlier, gone) = older s (browse t) t.pending (rw h (omega arith)) a in
    (ground arith, (ground arith, earlier))

rerun-IsSound :
    (s t : Picker)
    → s.generation ≡ t.generation
    → All (IsAsked s) t.pending
    → (t.active ≡ false → IsSound t)
    → IsSound (rerun t)
unfolding rerun
rerun-IsSound s t h a off =
    if_intro IsSound t.active (browse t) t (λ e. browse-IsSound s t h e a) off

-- A shut picker has no request of the present run in flight.
off-IsSound :
    (s t : Picker)
    → s.generation ≡ t.generation
    → s.pending ≡ t.pending
    → s.active ≡ t.active
    → IsSound s
    → t.active ≡ false
    → IsSound t
off-IsSound s t h p e v off = (
  ground (arith, ap₂ count_run h p),
  kept s t t.pending h (λ on. absurd (cc (on, off))) (subst (All (IsAsked s)) p v.1),
)

module _ (s : Picker) (v : IsSound s) where
  set_selected-IsSound : (path : String) → IsSound (set_selected path s)
  unfolding set_selected
  set_selected-IsSound path =
      let t : Picker = record s { selected = some path } in
      if_intro IsSound (is_selected s.selected path) s (rerun t) (λ _. v)
        (λ _. rerun-IsSound s t refl v.1 (off-IsSound s t refl refl refl v))

  shut_down-IsSound : IsSound (shut_down s)
  unfolding shut_down
  shut_down-IsSound =
      let (earlier, gone) = older s (shut_down s) s.pending (omega arith) v.1 in
      (ground arith, earlier)

  module _ (place g : ℕ) (path : String) (e : take_request place s.pending ≡ some (g, path)) where
    -- The answered request is taken out, and the picker is loading no more.
    concluded-IsSound :
        (data_shown : Option FsBrowse) (error : String)
        → (g == s.generation) ≡ true
        → IsSound (record s {
          pending = drop_request place s.pending;
          data_shown = data_shown;
          error = error;
          loading = false;
        })
    concluded-IsSound data_shown error here = (
      ground (arith, count_run-drop place s.generation (g, path) s.pending e),
      All-drop (IsAsked s) place s.pending v.1,
    )

    dropped-IsSound :
        (g == s.generation) ≡ false → IsSound (record s { pending = drop_request place s.pending })
    dropped-IsSound here = (
      ground (arith, count_run-drop place s.generation (g, path) s.pending e),
      All-drop (IsAsked s) place s.pending v.1,
    )

conclude-IsSound :
    (r : Reply) (s : Picker) (place g : ℕ) (path : String)
    → IsSound s
    → take_request place s.pending ≡ some (g, path)
    → (g == s.generation) ≡ true
    → IsSound (conclude r (record s { pending = drop_request place s.pending }))
unfolding conclude
conclude-IsSound (browsed res) s place g path v e h =
    set_selected-IsSound _ (concluded-IsSound s v place g path e (some res) s.error h) res.path
conclude-IsSound (refused message) s place g path v e h =
    concluded-IsSound s v place g path e s.data_shown message h

settle-IsSound :
    (o : Option (ℕ × String)) (place : ℕ) (r : Reply) (s : Picker)
    → IsSound s
    → take_request place s.pending ≡ o
    → IsSound (settle o place r s)
unfolding settle
settle-IsSound none place r s v e = v
settle-IsSound (some (g, path)) place r s v e =
    let taken : Picker = record s { pending = drop_request place s.pending } in
    if_intro IsSound (g == s.generation) (conclude r taken) taken
      (conclude-IsSound r s place g path v e) (dropped-IsSound s v place g path e)

pub step-IsSound : (s : Picker) (x : Event) → IsSound s → IsSound (step s x)
unfolding step
step-IsSound s opened v =
    let t : Picker = record s { active = true } in
    if_intro IsSound s.active s (rerun t) (λ _. v) (λ _. browse-IsSound s t refl refl v.1)
step-IsSound s shut v =
    if_intro IsSound s.active (shut_down s) s (λ _. shut_down-IsSound s v) (λ _. v)
step-IsSound s reloaded v =
    let t : Picker = record s { tick = suc s.tick } in
    rerun-IsSound s t refl v.1 (off-IsSound s t refl refl refl v)
step-IsSound s translated v = rerun-IsSound s s refl v.1 (λ _. v)
step-IsSound s (navigated path) v = set_selected-IsSound s v path
step-IsSound s (replied place r) v = settle-IsSound (take_request place s.pending) place r s v refl

run-IsSound : (es : List Event) (s : Picker) → IsSound s → IsSound (run s es)
unfolding run
run-IsSound [] s v = v
run-IsSound (e ∷ es) s v = run-IsSound es (step s e) (step-IsSound s e v)

-- From the mount on, whatever the user and the server do: one request in flight is of the present
-- run while an active picker is loading, and none is at any other time; that request asks for the
-- selected folder.
pub run-unopened-IsSound : (es : List Event) → IsSound (run unopened es)
unfolding count_run
run-unopened-IsSound es = run-IsSound es unopened (refl, tt)
