-- ===== src/Terminal/Mouse.antt =====
-- `MALFORMED_MOUSE_RE`, against the texts that the regular expression describes.
use oh_my_terminal.Base.{
  ℕ, ◌≡◌, ◌↔◌, sym, subst, List, [], ◌∷◌, ◌++◌, true, arith, refl, Bool-cases, inl, inr,
}
use oh_my_terminal.Terminal.{
  starts, is_digit, report, semicolon_nan, digits_nan, some_digits_nan, malformed_here,
  is_malformed_mouse,
}

-- `\d*;NaN`, at the start of a text
pub data DigitsNan : List ℕ → Type 0 where
  nan_here : (rest : List ℕ) → DigitsNan (semicolon_nan ++ rest)
  digit : (c : ℕ) (cs : List ℕ) → is_digit c ≡ true → DigitsNan cs → DigitsNan (c ∷ cs)

-- `ESC[<\d+;NaN`, anywhere in a text
pub data Malformed : List ℕ → Type 0 where
  report_here :
      (c : ℕ) (cs : List ℕ) → is_digit c ≡ true → DigitsNan cs → Malformed (report ++ c ∷ cs)
  later : (c : ℕ) (cs : List ℕ) → Malformed cs → Malformed (c ∷ cs)

starts-lem : (p s : List ℕ) → starts p s ≡ true → (rest : List ℕ) × (s ≡ p ++ rest)
unfolding starts
starts-lem [] s e = (s, refl)
starts-lem (p ∷ ps) [] e = absurd (cc)
starts-lem (p ∷ ps) (c ∷ cs) e =
    let same : p ≡ c = ground arith in
    let more : starts ps cs ≡ true = ground arith in
    let (rest, q) = starts-lem ps cs more in (rest, cc)

digits_nan-DigitsNan : (s : List ℕ) → digits_nan s ≡ true → DigitsNan s
unfolding digits_nan
digits_nan-DigitsNan [] e = absurd (cc)
digits_nan-DigitsNan (c ∷ cs) e = elim (Bool-cases (is_digit c)) [
  | inl d ↦ digit c cs d (digits_nan-DigitsNan cs (ground arith))
  | inr d ↦
      let (rest, q) = starts-lem semicolon_nan (c ∷ cs) (ground arith) in
      subst DigitsNan (sym q) (nan_here rest)
]

DigitsNan-digits_nan : (s : List ℕ) → DigitsNan s → digits_nan s ≡ true
unfolding digits_nan starts
DigitsNan-digits_nan s (nan_here rest) = refl
DigitsNan-digits_nan s (digit c cs d m) = rw (d, DigitsNan-digits_nan cs m) refl

some_digits_nan-Malformed : (s : List ℕ) → some_digits_nan s ≡ true → Malformed (report ++ s)
unfolding some_digits_nan
some_digits_nan-Malformed [] e = absurd (cc)
some_digits_nan-Malformed (c ∷ cs) e =
    report_here c cs (ground arith) (digits_nan-DigitsNan cs (ground arith))

malformed_here-Malformed : (s : List ℕ) → malformed_here s ≡ true → Malformed s
unfolding malformed_here
malformed_here-Malformed [] e = absurd (cc)
malformed_here-Malformed (a ∷ []) e = absurd (cc)
malformed_here-Malformed (a ∷ b ∷ []) e = absurd (cc)
malformed_here-Malformed (a ∷ b ∷ c ∷ cs) e =
    let (rest, q) = starts-lem report (a ∷ b ∷ c ∷ []) (ground arith) in
    let same : a ∷ b ∷ c ∷ cs ≡ report ++ cs = cc in
    subst Malformed (sym same) (some_digits_nan-Malformed cs (ground arith))

is_malformed_mouse-Malformed : (s : List ℕ) → is_malformed_mouse s ≡ true → Malformed s
unfolding is_malformed_mouse
is_malformed_mouse-Malformed [] e = absurd (cc)
is_malformed_mouse-Malformed (c ∷ cs) e = elim (Bool-cases (malformed_here (c ∷ cs))) [
  | inl h ↦ malformed_here-Malformed (c ∷ cs) h
  | inr h ↦ later c cs (is_malformed_mouse-Malformed cs (ground arith))
]

Malformed-is_malformed_mouse : (s : List ℕ) → Malformed s → is_malformed_mouse s ≡ true
unfolding is_malformed_mouse malformed_here starts some_digits_nan
Malformed-is_malformed_mouse s (report_here c cs d m) = rw (d, DigitsNan-digits_nan cs m) refl
Malformed-is_malformed_mouse s (later c cs m) = ground (arith, Malformed-is_malformed_mouse cs m)

-- The test of a typed text says that it is malformed exactly if the regular expression matches
-- somewhere in it.
is_malformed_mouse_iff : (s : List ℕ) → (is_malformed_mouse s ≡ true) ↔ Malformed s
is_malformed_mouse_iff s = (is_malformed_mouse-Malformed s, Malformed-is_malformed_mouse s)
