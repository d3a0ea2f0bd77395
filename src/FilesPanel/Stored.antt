-- ===== src/FilesPanel/Stored.antt =====
-- The width is never below the least one, and a reload brings back its whole pixels.
use native.Mathlib.Nat.{mul-le-mul_right, mul-div_cancel, le-div_iff_mul-le}
use oh_my_terminal.Base.{
  ℕ, ◌+◌, ◌*◌, ◌/◌, ◌<◌, ap, sym, subst, ◌∙◌, leb, Bool-cases, inl, inr, ◌≤◌, ◌≡◌, String, Option,
  none, some, Bool, true, false, List, [], ◌∷◌, arith, refl,
}
use oh_my_terminal.FilesPanel.{
  min_width, default_width, Parsed, not_a_number, negative, value, clamp_difference, width_of, Drag,
  Panel, Key, arrow_left, arrow_right, home, other, Event, pointer_down, pointer_move, pointer_end,
  key_down, double_click, stored_width, set_width, on_pointer_down, on_pointer_move, end_resize,
  on_key_down, step, run, start,
}

abbrev pub is_some : {A : Type 0} → Option A → Bool
is_some none = false
is_some (some _) = true

module _ (unit : ℕ) (parse_int : String → Parsed) (print : ℕ → String) where
  -- The whole pixels of a width.
  abbrev pub whole_pixels : ℕ → ℕ
  whole_pixels w = w / unit * unit

  -- The width is not below the least one, a drag is on exactly if the panel says so, and while there
  -- is none a reload gives the whole pixels of the width.
  abbrev pub IsSound : Panel → Type 0
  IsSound s =
      (min_width * unit ≤ s.files_width)
      × (s.resizing ≡ is_some s.drag)
      × (s.drag ≡ none → stored_width unit parse_int print s.stored ≡ whole_pixels s.files_width)

  clamp_difference-least : (a b : ℕ) → min_width * unit ≤ clamp_difference unit a b
  unfolding clamp_difference
  clamp_difference-least a b = omega arith

  width_of-least : (p : Parsed) → min_width * unit ≤ width_of unit p
  unfolding width_of
  width_of-least not_a_number = mul-le-mul_right unit (omega arith)
  width_of-least negative = omega arith
  width_of-least (value n) = clamp_difference-least (n * unit) 0

  stored_width-least : (o : Option String) → min_width * unit ≤ stored_width unit parse_int print o
  unfolding stored_width
  stored_width-least none = mul-le-mul_right unit (omega arith)
  stored_width-least (some raw) = width_of-least (parse_int raw)

not_over : (n : ℕ) → leb n min_width ≡ true → n ≤ min_width
not_over n e = ground (arith, e)

not_under : (n : ℕ) → leb n min_width ≡ false → min_width ≤ n
not_under n e = ground (arith, e)

module _ (unit : ℕ) (parse_int : String → Parsed) (print : ℕ → String) (h : 0 < unit) where
  pixels-whole : (n : ℕ) → n * unit ≡ whole_pixels unit parse_int print (n * unit)
  pixels-whole n = ap (λ m. m * unit) (sym (mul-div_cancel n h))

  clamp-pixels : (n : ℕ) → (m : ℕ) × (clamp_difference unit (n * unit) 0 ≡ m * unit)
  unfolding clamp_difference
  clamp-pixels n = elim (Bool-cases (leb n min_width)) [
    | inl e ↦ (min_width, omega (arith, mul-le-mul_right unit (not_over n e)))
    | inr e ↦ (n, omega (arith, mul-le-mul_right unit (not_under n e)))
  ]

  width_of-whole :
      (p : Parsed) → width_of unit p ≡ whole_pixels unit parse_int print (width_of unit p)
  unfolding width_of clamp_difference
  width_of-whole not_a_number = pixels-whole default_width
  width_of-whole negative = pixels-whole min_width
  width_of-whole (value n) =
      let (m, e) = clamp-pixels n in
      subst (λ w. w ≡ whole_pixels unit parse_int print w) (sym e) (pixels-whole m)

  stored_width-whole :
      (o : Option String)
      → stored_width unit parse_int print o
        ≡ whole_pixels unit parse_int print (stored_width unit parse_int print o)
  unfolding stored_width
  stored_width-whole none = pixels-whole default_width
  stored_width-whole (some raw) = width_of-whole (parse_int raw)

module _ (unit : ℕ) (parse_int : String → Parsed) (print : ℕ → String) (h : 0 < unit)
    (parse-print : (n : ℕ) → parse_int (print n) ≡ value (n / unit)) where
  stored_width-print :
      (n : ℕ)
      → min_width * unit ≤ n
      → stored_width unit parse_int print (some (print n)) ≡ whole_pixels unit parse_int print n
  unfolding stored_width width_of clamp_difference
  stored_width-print n le =
      let wide : min_width * unit ≤ n / unit * unit =
        mul-le-mul_right unit ((le-div_iff_mul-le h).1 le) in
      ap (width_of unit) (parse-print n) ∙ omega (arith, wide)

  set_width-IsSound :
      (n : ℕ) (s : Panel)
      → min_width * unit ≤ n
      → s.resizing ≡ is_some s.drag
      → IsSound unit parse_int print (set_width unit parse_int print n s)
  unfolding set_width
  set_width-IsSound n s le e = (le, e, λ _. stored_width-print n le)

  move-IsSound :
      (x : ℕ) (o : Option Drag) (s : Panel)
      → s.drag ≡ o
      → IsSound unit parse_int print s
      → IsSound unit parse_int print (on_pointer_move unit parse_int print x o s)
  unfolding on_pointer_move
  move-IsSound x none s e k = k
  move-IsSound x (some d) s e k = (
    clamp_difference-least unit parse_int print (d.start_width + d.start_x) x,
    k.1,
    λ h. absurd (cc (e, h)),
  )

  end-IsSound :
      (x : ℕ) (o : Option Drag) (s : Panel)
      → IsSound unit parse_int print s
      → IsSound unit parse_int print (end_resize unit parse_int print x o s)
  unfolding end_resize
  end-IsSound x none s k = k
  end-IsSound x (some d) s k =
      set_width-IsSound (clamp_difference unit (d.start_width + d.start_x) x)
        (record s { drag = none; resizing = false })
        (clamp_difference-least unit parse_int print (d.start_width + d.start_x) x) refl

  key-IsSound :
      (i : Key) (s : Panel)
      → IsSound unit parse_int print s
      → IsSound unit parse_int print (on_key_down unit parse_int print i s)
  unfolding on_key_down
  key-IsSound arrow_left s k =
      set_width-IsSound (clamp_difference unit (s.files_width + 24 * unit) 0) s
        (clamp_difference-least unit parse_int print (s.files_width + 24 * unit) 0) k.1
  key-IsSound arrow_right s k =
      set_width-IsSound (clamp_difference unit s.files_width (24 * unit)) s
        (clamp_difference-least unit parse_int print s.files_width (24 * unit)) k.1
  key-IsSound home s k =
      set_width-IsSound (default_width * unit) s (mul-le-mul_right unit (omega arith)) k.1
  key-IsSound other s k = k

  step-IsSound :
      (s : Panel) (e : Event)
      → IsSound unit parse_int print s
      → IsSound unit parse_int print (step unit parse_int print s e)
  unfolding step on_pointer_down
  step-IsSound s (pointer_down x) k = (k.0, refl, λ h. absurd (cc h))
  step-IsSound s (pointer_move x) k = move-IsSound x s.drag s refl k
  step-IsSound s (pointer_end x) k = end-IsSound x s.drag s k
  step-IsSound s (key_down i) k = key-IsSound i s k
  step-IsSound s double_click k =
      set_width-IsSound (default_width * unit) s (mul-le-mul_right unit (omega arith)) k.1

  run-IsSound :
      (s : Panel) (es : List Event)
      → IsSound unit parse_int print s
      → IsSound unit parse_int print (run unit parse_int print s es)
  unfolding run
  run-IsSound s [] k = k
  run-IsSound s (e ∷ es) k = run-IsSound (step unit parse_int print s e) es (step-IsSound s e k)

  -- If a pixel has a step, and the whole pixels of a printed width are read back, then whatever the
  -- storage has at first and whatever happens: the width is not below the least one, a drag is on
  -- exactly if the panel says so, and while there is none a reload gives the whole pixels of the width.
  pub run-start-IsSound :
      (stored : Option String) (es : List Event)
      → IsSound unit parse_int print
          (run unit parse_int print (start unit parse_int print stored) es)
  run-start-IsSound stored es = run-IsSound (start unit parse_int print stored) es (
    stored_width-least unit parse_int print stored,
    refl,
    λ _. stored_width-whole unit parse_int print h stored,
  )
