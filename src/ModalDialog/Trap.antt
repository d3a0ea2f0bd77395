-- ===== src/ModalDialog/Trap.antt =====
-- The focus stays in an open dialog, and goes back when it is shut.
use oh_my_terminal.Base.{
  ℕ, suc, ◌≤◌, ◌<◌, ◌≡◌, ◌≢◌, ◌↔◌, inl, inr, ◌∙◌, ap, sym, Option, none, some, List, [], ◌∷◌, Bool,
  true, false, ◌==◌, All, arith, refl, if◌then◌else◌, if_intro, Bool-cases,
}
use oh_my_terminal.ModalDialog.{
  Place, item, panel, outside, Dialog, is_at, is_outside, trap, or_place, Event, opened, shut,
  escape, tab, clicked, pressed, tab_to, left_over, give_back, open_dialog, shut_dialog, close,
  step, run,
}

-- The last element, or the first with Shift.
abbrev pub edge : Bool → ℕ → ℕ
edge true n = 0
edge false n = n

-- An element of the dialog other than the edge, or the panel.
abbrev pub IsFree : Bool → ℕ → Place → Type 0
IsFree shift n (item i) = i ≢ edge shift n
IsFree shift n panel = Unit
IsFree shift n (outside _) = ⊥

-- While there are elements, a Tab is left to the browser exactly on an element of the dialog other
-- than the last, or with Shift other than the first, and on the panel itself.
pub trap-none_iff :
    (shift : Bool) (n : ℕ) (active : Place)
    → (trap shift (suc n) active ≡ none) ↔ IsFree shift n active
unfolding trap is_at is_outside
trap-none_iff true n (item i) = (λ e p. ground arith, λ h. ground arith)
trap-none_iff true n panel = (λ _. tt, λ _. refl)
trap-none_iff true n (outside x) = (λ e. cc e, λ h. absurd h)
trap-none_iff false n (item i) = (λ e p. ground arith, λ h. ground arith)
trap-none_iff false n panel = (λ _. tt, λ _. refl)
trap-none_iff false n (outside x) = (λ e. cc e, λ h. absurd h)

-- The browser moves the focus from an element to the next or to the one before.
abbrev pub IsOrdered : (Bool → ℕ → Place → Place) → ℕ → Type 0
IsOrdered browser n =
    ((i : ℕ) → i < n → browser false (suc n) (item i) ≡ item (suc i))
    × ((i : ℕ) → i < n → browser true (suc n) (item (suc i)) ≡ item i)

module _ (browser : Bool → ℕ → Place → Place) where
  tab_to-next :
      (n i : ℕ)
      → IsOrdered browser n
      → i ≤ n
      → tab_to browser false (suc n) (item i) ≡ item (if i == n then 0 else suc i)
  unfolding tab_to trap is_at is_outside or_place
  tab_to-next n i o h = elim (Bool-cases (i == n)) [
    | inl e ↦ rw e refl
    | inr e ↦ rw e (o.0 i (ground arith))
  ]

  tab_to-last : (n : ℕ) → tab_to browser true (suc n) (item 0) ≡ item n
  unfolding tab_to trap is_at is_outside or_place
  tab_to-last n = refl

  tab_to-before :
      (n i : ℕ) → IsOrdered browser n → i < n → tab_to browser true (suc n) (item (suc i)) ≡ item i
  unfolding tab_to trap is_at is_outside or_place
  tab_to-before n i o h = let off : (suc i == 0) ≡ false = ground arith in rw off (o.1 i h)

  -- While the elements stay the same and the browser moves from each to the next and back: a Tab on
  -- an element of the dialog goes to the next, from the last to the first, and a Tab with Shift goes
  -- back from there; from outside, a Tab goes to the first and one with Shift to the last.
  pub tab_to-cycles :
      (n i x : ℕ)
      → IsOrdered browser n
      → i ≤ n
      → let next = tab_to browser false (suc n) (item i) in
        (next ≡ item (if i == n then 0 else suc i))
        × (tab_to browser true (suc n) next ≡ item i)
        × (tab_to browser false (suc n) (outside x) ≡ item 0)
        × (tab_to browser true (suc n) (outside x) ≡ item n)
  unfolding tab_to trap is_outside or_place
  tab_to-cycles n i x o h = (tab_to-next n i o h, back, refl, refl)
    where
      back : tab_to browser true (suc n) (tab_to browser false (suc n) (item i)) ≡ item i
      back = elim (Bool-cases (i == n)) [
        | inl e ↦
            let here : i ≡ n = ground arith in
            ap (tab_to browser true (suc n)) {y = item 0} (tab_to-next n i o h ∙ rw e refl)
            ∙ tab_to-last n
            ∙ ap item (sym here)
        | inr e ↦
            ap (tab_to browser true (suc n)) {y = item (suc i)} (tab_to-next n i o h ∙ rw e refl)
            ∙ tab_to-before n i o (ground arith)
      ]

-- The dialog is open, and will give the focus back to the place, if there is one.
abbrev pub IsOpen : Option Place → Dialog → Type 0
IsOpen r s = (s.open_now ≡ true) × (s.restore ≡ r) × (s.scrolls ≡ false)

abbrev pub IsInside : Event → Type 0
IsInside (opened _ _) = ⊥
IsInside shut = ⊥
IsInside _ = Unit

module _ (browser : Bool → ℕ → Place → Place) (is_html : Place → Bool) (body : ℕ) where
  step-IsOpen :
      (r : Option Place) (s : Dialog) (e : Event)
      → IsInside e
      → IsOpen r s
      → IsOpen r (step browser is_html body s e)
  unfolding step close
  step-IsOpen r s escape h v = ground arith
  step-IsOpen r s (tab shift count) h v = v
  step-IsOpen r s (clicked q) h v = v
  step-IsOpen r s (pressed on_overlay) h v = ground arith
  step-IsOpen r s (opened _ _) h v = absurd h
  step-IsOpen r s shut h v = absurd h

  run-IsOpen :
      (r : Option Place) (es : List Event) (s : Dialog)
      → All IsInside es
      → IsOpen r s
      → IsOpen r (run browser is_html body s es)
  unfolding run
  run-IsOpen r [] s h v = v
  run-IsOpen r (e ∷ es) s h v =
      run-IsOpen r es (step browser is_html body s e) h.1 (step-IsOpen r s e h.0 v)

  -- What has the focus after the commit, if it is an `HTMLElement`.
  abbrev pub remembered : Option Place → Dialog → Option Place
  remembered autofocus s =
      if is_html (or_place autofocus s.focus) then some (or_place autofocus s.focus) else none

  opens-IsOpen :
      (autofocus : Option Place) (count : ℕ) (s : Dialog)
      → s.open_now ≡ false
      → IsOpen (remembered autofocus s) (step browser is_html body s (opened autofocus count))
  unfolding step open_dialog
  opens-IsOpen autofocus count s o =
      if_intro (IsOpen (remembered autofocus s)) s.open_now s
        (open_dialog is_html autofocus count s) (λ e. absurd (cc (e, o))) (λ _. (refl, refl, refl))

  shut-gives_back :
      (r : Option Place) (t : Dialog)
      → IsOpen r t
      → let u = step browser is_html body t shut in
        (u.focus ≡ give_back r (left_over body t.focus)) × (u.scrolls ≡ true)
  unfolding step shut_dialog
  shut-gives_back r t v =
      if_intro (λ u. (u.focus ≡ give_back r (left_over body t.focus)) × (u.scrolls ≡ true))
        t.open_now (shut_dialog body t) t
        (λ _. (ap (λ r. give_back r (left_over body t.focus)) v.1, refl))
        (λ e. absurd (cc (e, v.0)))

  -- When an element of the dialog has taken the focus as the dialog was opened, whatever happens in it,
  -- and it is shut then: the focus stays where it is outside of the dialog, and else goes to the body.
  autofocus-lost :
      (count i : ℕ) (es : List Event) (s : Dialog)
      → s.open_now ≡ false
      → is_html (item i) ≡ true
      → All IsInside es
      → let t =
          run browser is_html body
            (step browser is_html body s (opened (some (item i)) count))
            es in
        (step browser is_html body t shut).focus ≡ left_over body t.focus
  unfolding or_place give_back
  autofocus-lost count i es s o html h =
      let begun = step browser is_html body s (opened (some (item i)) count) in
      let t = run browser is_html body begun es in
      let kept : remembered (some (item i)) s ≡ some (item i) =
        ap (λ b. if b then some (item i) else none) html in
      let v =
        run-IsOpen (remembered (some (item i)) s) es begun h
          (opens-IsOpen (some (item i)) count s o) in
      (shut-gives_back (remembered (some (item i)) s) t v).0
      ∙ ap (λ r. give_back r (left_over body t.focus)) kept
