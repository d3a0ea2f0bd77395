-- ===== src/FileTree/Paths.antt =====
-- The paths of the entries, against the wizard's `basename`.
use oh_my_terminal.Base.{
  ℕ, ◌≡◌, ◌∙◌, ap, List, [], ◌∷◌, ◌++◌, true, append_assoc, arith, Bool-cases, inl, inr,
}
use oh_my_terminal.Wizard.{slash, ends_with_slash, drop_last, basename}
use oh_my_terminal.Wizard.Basename.{IsPart, basename-part}
use oh_my_terminal.FileTree.{join_path}

last_slash : (base : List ℕ) → ends_with_slash base ≡ true → base ≡ drop_last base ++ slash ∷ []
unfolding ends_with_slash drop_last
last_slash [] e = absurd (cc e)
last_slash (c ∷ []) e = ground arith
last_slash (c ∷ d ∷ cs) e = ap (λ s. c ∷ s) (last_slash (d ∷ cs) e)

-- The name of an entry is the basename of its path: `basename` takes back what `joinPath` has put
-- behind a path, if it is not empty and has no slash.
basename-join_path :
    (base : List ℕ) (d : ℕ) (s : List ℕ)
    → IsPart (d ∷ s)
    → basename (join_path base (d ∷ s)) ≡ d ∷ s
unfolding join_path
basename-join_path [] d s h = (basename-part [] d s h).0
basename-join_path (c ∷ cs) d s h = elim (Bool-cases (ends_with_slash (c ∷ cs))) [
  | inl e ↦ rw e (
      ap (λ b. basename (b ++ d ∷ s)) (last_slash (c ∷ cs) e)
      ∙ ap basename (append_assoc (drop_last (c ∷ cs)) (slash ∷ []) (d ∷ s))
      ∙ (basename-part (drop_last (c ∷ cs)) d s h).0)
  | inr e ↦ rw e ((basename-part (c ∷ cs) d s h).0)
]
