-- ===== src/MobileInput/Sending.antt =====
-- What is typed reaches the terminal once.
use oh_my_terminal.Base.{
  ℕ, ◌≡◌, ◌∙◌, sym, ap, subst, if_intro, Option, none, some, List, [], ◌∷◌, ◌++◌, true, ltb, length,
  All, arith, refl, append_assoc, append-nil, ◌&&◌,
}
use oh_my_terminal.MobileInput.{
  Overlay, send, flush, flush_value, on_send, on_unfocused, focus_field, carriage_return, Event,
  typed, edited, key_down, extra_key, sent, unfocused, step, run, type_at_end,
}

-- Typing, sending and leaving the pane.
abbrev pub IsPlain : Event → Type 0
IsPlain (typed _) = Unit
IsPlain sent = Unit
IsPlain unfocused = Unit
IsPlain (edited _) = ⊥
IsPlain (key_down _ _) = ⊥
IsPlain (extra_key _) = ⊥

-- What is typed, with a carriage return for each press of the button.
unfoldable pub said : List Event → List ℕ
said [] = []
said (typed s ∷ es) = s ++ said es
said (sent ∷ es) = carriage_return ∷ said es
said (e ∷ es) = said es

-- With a terminal and a field, what the terminal has, and behind it what is still in the field, make
-- up the text.
abbrev pub IsWhole : List ℕ → Overlay → Type 0
IsWhole l s =
    (value : List ℕ) × (s.field ≡ some value) × (s.has_terminal ≡ true) × (s.output ++ value ≡ l)

-- What a call of `send` does to the terminal; it leaves the field alone.
send-output :
    (x : List ℕ) (s : Overlay)
    → s.has_terminal ≡ true
    → ((send x s).output ≡ s.output ++ x)
      × ((send x s).field ≡ s.field)
      × ((send x s).has_terminal ≡ true)
unfolding send
send-output [] s h = (sym (append-nil s.output), refl, h)
send-output (c ∷ cs) s h =
    if_intro (λ t. (t.output ≡ s.output ++ c ∷ cs) × (t.field ≡ s.field) × (t.has_terminal ≡ true))
      (ltb 0 (length (c ∷ cs)) && s.has_terminal) (record s { output = s.output ++ c ∷ cs }) s
      (λ _. (refl, refl, h)) (λ e. absurd (ground arith))

-- After a flush the field is empty.
flush-output :
    (l : List ℕ) (s : Overlay)
    → IsWhole l s
    → ((flush s).output ≡ l) × ((flush s).field ≡ some []) × ((flush s).has_terminal ≡ true)
unfolding flush flush_value
flush-output l s (value, f, h, w) =
    let (out, _, term) = send-output value s h in
    let flushed : flush s ≡ record (send value s) { field = some [] } =
      ap (λ o. flush_value o s) f in
    (
      ap (λ t. t.output) flushed ∙ out ∙ w,
      ap (λ t. t.field) flushed,
      ap (λ t. t.has_terminal) flushed ∙ term,
    )

focus_field-output :
    (o : Option (List ℕ)) (s : Overlay)
    → ((focus_field o s).output ≡ s.output)
      × ((focus_field o s).field ≡ s.field)
      × ((focus_field o s).has_terminal ≡ s.has_terminal)
unfolding focus_field
focus_field-output none s = (refl, refl, refl)
focus_field-output (some v) s = (refl, refl, refl)

on_send-IsWhole :
    (l : List ℕ) (s : Overlay) → IsWhole l s → IsWhole (l ++ carriage_return ∷ []) (on_send s)
unfolding on_send
on_send-IsWhole l s w =
    let (out, fld, term) = flush-output l s w in
    let (out', fld', term') = send-output (carriage_return ∷ []) (flush s) term in
    let t : Overlay = send (carriage_return ∷ []) (flush s) in
    let (out'', fld'', term'') = focus_field-output t.field t in
    (
      [],
      fld'' ∙ fld' ∙ fld,
      term'' ∙ term',
      append-nil _ ∙ out'' ∙ out' ∙ ap (λ x. x ++ carriage_return ∷ []) out,
    )

step-IsWhole :
    (l : List ℕ) (s : Overlay) (e : Event)
    → IsPlain e
    → IsWhole l s
    → IsWhole (l ++ said (e ∷ [])) (step s e)
unfolding step said type_at_end on_unfocused
step-IsWhole l s (typed x) p (value, f, h, w) = (
  value ++ x,
  ap (type_at_end x) f,
  h,
  sym (append_assoc s.output value x) ∙ ap (λ y. y ++ x) w ∙ ap (λ y. l ++ y) (sym (append-nil x)),
)
step-IsWhole l s sent p w = on_send-IsWhole l s w
step-IsWhole l s unfocused p w =
    let (out, fld, term) = flush-output l s w in
    ([], fld, term, append-nil _ ∙ out ∙ sym (append-nil l))
step-IsWhole l s (edited _) p w = absurd p
step-IsWhole l s (key_down _ _) p w = absurd p
step-IsWhole l s (extra_key _) p w = absurd p

said-cons : (e : Event) (es : List Event) → said (e ∷ []) ++ said es ≡ said (e ∷ es)
unfolding said
said-cons (typed s) es = ap (λ x. x ++ said es) (append-nil s)
said-cons sent es = refl
said-cons unfocused es = refl
said-cons (edited _) es = refl
said-cons (key_down _ _) es = refl
said-cons (extra_key _) es = refl

-- With a terminal and a field: after any run of typing at the end, of presses of the button and of
-- leaving the pane, what the terminal has been given, and behind it what is still in the field, are
-- what there was before, and behind that what was typed, once and in order, with a carriage return
-- for each press.
pub run-IsWhole :
    (es : List Event) (l : List ℕ) (s : Overlay)
    → All IsPlain es
    → IsWhole l s
    → IsWhole (l ++ said es) (run s es)
unfolding run said
run-IsWhole [] l s p w = subst (λ x. IsWhole x s) (sym (append-nil l)) w
run-IsWhole (e ∷ es) l s p w =
    subst (λ x. IsWhole x (run (step s e) es))
      (append_assoc l (said (e ∷ [])) (said es) ∙ ap (λ x. l ++ x) (said-cons e es))
      (run-IsWhole es (l ++ said (e ∷ [])) (step s e) p.1 (step-IsWhole l s e p.0 w))
