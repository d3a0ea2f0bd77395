-- ===== src/FileTree/Order.antt =====
-- The order in which the entries of a folder are shown.
use mathlib.Core.List.{Perm}
use oh_my_terminal.Base.{
  ℕ, ◌≡◌, ◌≢◌, List, [], ◌∷◌, ◌++◌, Bool, true, false, All, arith, refl, subst, ap, ◌∙◌, IsSorted,
  All-append, Bool-cases, inl, inr,
}
use oh_my_terminal.FileTree.{FsEntry, Sign, before, same, after, compare_entries, sort_entries}

abbrev pub opposite : Sign → Sign
opposite before = after
opposite same = same
opposite after = before

module _ {A : Type 0} where
  -- What `sort` asks of a comparison.
  abbrev pub IsConsistent : (A → A → Sign) → Type 0
  IsConsistent cmp =
      ((a b : A) → cmp b a ≡ opposite (cmp a b))
      × ((a b c : A) → cmp a b ≢ after → cmp b c ≢ after → cmp a c ≢ after)

  abbrev pub IsUpTo : (A → A → Sign) → A → A → Type 0
  IsUpTo cmp a b = cmp a b ≢ after

-- The result of `sort` with a consistent comparison: the same elements, in order.
abbrev pub IsSort : {A : Type 0} → ((A → A → Sign) → List A → List A) → Type 0
IsSort {A} sort =
    (cmp : A → A → Sign)
    → IsConsistent cmp
    → (l : List A) → Perm (sort cmp l) l × IsSorted (IsUpTo cmp) (sort cmp l)

module _ (locale_compare : List ℕ → List ℕ → Sign) where
  abbrev pub IsNamedUpTo : FsEntry → FsEntry → Type 0
  IsNamedUpTo a b = locale_compare a.name b.name ≢ after

  -- Folders before files, and each of the two in the order of their names.
  pub record IsListing (l : List FsEntry) : Type 0 where
    pub dirs : List FsEntry
    pub files : List FsEntry
    pub all : l ≡ dirs ++ files
    pub all_dirs : All (λ e. e.is_dir ≡ true) dirs
    pub all_files : All (λ e. e.is_dir ≡ false) files
    pub dirs_named : IsSorted IsNamedUpTo dirs
    pub files_named : IsSorted IsNamedUpTo files

  compare_entries-IsConsistent :
      IsConsistent locale_compare → IsConsistent (compare_entries locale_compare)
  unfolding compare_entries
  compare_entries-IsConsistent c = (
    λ a b. ground (arith, c.0 a.name b.name),
    λ a b d h k. ground (arith, c.1 a.name b.name d.name),
  )

  -- Entries of the same kind that are in order have their names in order.
  named_of_kind :
      (k : Bool) (a : FsEntry) (xs : List FsEntry)
      → a.is_dir ≡ k
      → All (λ e. e.is_dir ≡ k) xs
      → All (IsUpTo (compare_entries locale_compare) a) xs
      → All (IsNamedUpTo a) xs
  unfolding compare_entries
  named_of_kind k a [] e p q = tt
  named_of_kind k a (x ∷ xs) e p q = (ground arith, named_of_kind k a xs e p.1 q.1)

  -- No folder stands behind a file.
  no_dirs :
      (a : FsEntry) (xs : List FsEntry)
      → a.is_dir ≡ false
      → All (λ e. e.is_dir ≡ true) xs
      → All (IsUpTo (compare_entries locale_compare) a) xs
      → xs ≡ []
  unfolding compare_entries
  no_dirs a [] e p q = refl
  no_dirs a (x ∷ xs) e p q = absurd (ground arith)

  IsListing-cons :
      (a : FsEntry) (l : List FsEntry)
      → All (IsUpTo (compare_entries locale_compare) a) l
      → IsListing l
      → IsListing (a ∷ l)
  IsListing-cons a l up r =
      let (up_dirs, up_files) =
        All-append (IsUpTo (compare_entries locale_compare) a) r.dirs r.files
          (subst (All (IsUpTo (compare_entries locale_compare) a)) r.all up) in
      elim (Bool-cases a.is_dir) [
        | inl e ↦ record {
          dirs = a ∷ r.dirs;
          files = r.files;
          all = ap (λ x. a ∷ x) r.all;
          all_dirs = (e, r.all_dirs);
          all_files = r.all_files;
          dirs_named = (named_of_kind true a r.dirs e r.all_dirs up_dirs, r.dirs_named);
          files_named = r.files_named;
        }
        | inr e ↦ record {
          dirs = [];
          files = a ∷ r.files;
          all =
              ap (λ x. a ∷ x) r.all
              ∙ ap (λ ds. a ∷ (ds ++ r.files)) (no_dirs a r.dirs e r.all_dirs up_dirs);
          all_dirs = tt;
          all_files = (e, r.all_files);
          dirs_named = tt;
          files_named = (named_of_kind false a r.files e r.all_files up_files, r.files_named);
        }
      ]

  IsSorted-IsListing :
      (l : List FsEntry) → IsSorted (IsUpTo (compare_entries locale_compare)) l → IsListing l
  IsSorted-IsListing [] s = record {
    dirs = [];
    files = [];
    all = refl;
    all_dirs = tt;
    all_files = tt;
    dirs_named = tt;
    files_named = tt;
  }
  IsSorted-IsListing (a ∷ l) s = IsListing-cons a l s.0 (IsSorted-IsListing l s.1)

  -- With a `sort` that puts the elements of a list in the order of a consistent comparison, and a
  -- consistent comparison of names: what `sortEntries` gives has the same entries, the folders before
  -- the files, and each of the two in the order of their names.
  pub sort_entries-IsListing :
      (sort : (FsEntry → FsEntry → Sign) → List FsEntry → List FsEntry)
      → IsSort sort
      → IsConsistent locale_compare
      → (l : List FsEntry)
      → Perm (sort_entries sort locale_compare l) l × IsListing (sort_entries sort locale_compare l)
  unfolding sort_entries
  sort_entries-IsListing sort h c l =
      let (same_entries, sorted) =
        h (compare_entries locale_compare) (compare_entries-IsConsistent c) l in
      (same_entries, IsSorted-IsListing (sort (compare_entries locale_compare) l) sorted)
