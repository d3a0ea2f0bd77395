-- ===== src/Wizard/Basename.antt =====
-- `basename`: the last part of a path.
use oh_my_terminal.Base.{
  ℕ, ◌≡◌, ◌∙◌, sym, ap, none, some, List, [], ◌∷◌, ◌++◌, true, false, ◌==◌, ltb, length,
  length-append, arith, refl, All, append_assoc,
}
use oh_my_terminal.Wizard.{
  slash, ends_with_slash, drop_last, after_slash, or_all, trimmed_path, basename,
}

-- No slash occurs in the text.
abbrev pub IsPart : List ℕ → Type 0
IsPart s = All (λ c. (c == slash) ≡ false) s

after_slash-IsPart : (s : List ℕ) → IsPart s → after_slash s ≡ none
unfolding after_slash
after_slash-IsPart [] h = refl
after_slash-IsPart (c ∷ cs) h = rw (after_slash-IsPart cs h.1, h.0) refl

after_slash-append : (dir s : List ℕ) → IsPart s → after_slash (dir ++ slash ∷ s) ≡ some s
unfolding after_slash
after_slash-append [] s h = rw (after_slash-IsPart s h) refl
after_slash-append (c ∷ cs) s h = rw (after_slash-append cs s h) refl

ends_with_slash-part :
    (d : ℕ) (dir s : List ℕ) → IsPart (d ∷ s) → ends_with_slash (dir ++ d ∷ s) ≡ false
unfolding ends_with_slash
ends_with_slash-part d [] [] h = h.0
ends_with_slash-part d [] (c ∷ cs) h = ends_with_slash-part c [] cs h.1
ends_with_slash-part d (x ∷ []) s h = ends_with_slash-part d [] s h
ends_with_slash-part d (x ∷ y ∷ ys) s h = ends_with_slash-part d (y ∷ ys) s h

ends_with_slash-append : (s : List ℕ) → ends_with_slash (s ++ slash ∷ []) ≡ true
unfolding ends_with_slash
ends_with_slash-append [] = refl
ends_with_slash-append (c ∷ []) = refl
ends_with_slash-append (c ∷ d ∷ cs) = ends_with_slash-append (d ∷ cs)

drop_last-append : (s : List ℕ) (x : ℕ) → drop_last (s ++ x ∷ []) ≡ s
unfolding drop_last
drop_last-append [] x = refl
drop_last-append (c ∷ []) x = refl
drop_last-append (c ∷ d ∷ cs) x = ap (λ l. c ∷ l) (drop_last-append (d ∷ cs) x)

trimmed_path-part :
    (dir : List ℕ) (d : ℕ) (s : List ℕ)
    → IsPart (d ∷ s)
    → trimmed_path (dir ++ slash ∷ d ∷ s) ≡ dir ++ slash ∷ d ∷ s
unfolding trimmed_path
trimmed_path-part dir d s h =
    let same : (dir ++ slash ∷ []) ++ d ∷ s ≡ dir ++ slash ∷ d ∷ s =
      append_assoc dir (slash ∷ []) (d ∷ s) in
    let no_end : ends_with_slash (dir ++ slash ∷ d ∷ s) ≡ false =
      ap ends_with_slash (sym same) ∙ ends_with_slash-part d (dir ++ slash ∷ []) s h in
    rw no_end refl

two-le-length :
    (dir : List ℕ) (d : ℕ) (s : List ℕ)
    → ltb 1 (length ((dir ++ slash ∷ d ∷ s) ++ slash ∷ [])) ≡ true
two-le-length dir d s =
    ground
      (arith, length-append (dir ++ slash ∷ d ∷ s) (slash ∷ []), length-append dir (slash ∷ d ∷ s))

trimmed_path-slash :
    (dir : List ℕ) (d : ℕ) (s : List ℕ)
    → trimmed_path ((dir ++ slash ∷ d ∷ s) ++ slash ∷ []) ≡ dir ++ slash ∷ d ∷ s
unfolding trimmed_path
trimmed_path-slash dir d s =
    let whole = dir ++ slash ∷ d ∷ s in
    rw (ends_with_slash-append whole, two-le-length dir d s) (drop_last-append whole slash)

-- The name of a folder is the part behind the last slash of its path, also where a slash follows it.
pub basename-part :
    (dir : List ℕ) (d : ℕ) (s : List ℕ)
    → IsPart (d ∷ s)
    → (basename (dir ++ slash ∷ d ∷ s) ≡ d ∷ s)
      × (basename ((dir ++ slash ∷ d ∷ s) ++ slash ∷ []) ≡ d ∷ s)
unfolding basename or_all
basename-part dir d s h = (
  rw (trimmed_path-part dir d s h, after_slash-append dir (d ∷ s) h) refl,
  rw (trimmed_path-slash dir d s, after_slash-append dir (d ∷ s) h) refl,
)
