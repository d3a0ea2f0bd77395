-- ===== src/FileTree/Tests.antt =====
-- A folder's entries with a concrete sort, runs of a folder, and the theorems at them.
use mathlib.Core.List.{Perm}
use mathlib.Core.List.Perm
use oh_my_terminal.Base.{
  ℕ, Bool, ◌≡◌, ◌≢◌, ◌≤◌, List, [], ◌∷◌, true, false, All, IsSorted, length, ltb, ◌==◌, arith, refl,
  if◌then◌else◌, if_intro,
}
use oh_my_terminal.FileTree.{
  FsEntry, Sign, before, same, after, sort_entries, format_size, Event, toggled, replied, listed,
  refused, run, folded, below, nothing, step, toggle, load, settle, receive, compare_entries,
  tenths, in_kb,
}
use oh_my_terminal.FileTree.Order.{IsConsistent, IsUpTo, IsSort, IsListing, sort_entries-IsListing}
use oh_my_terminal.FileTree.Sizes.{IsTextOf, format_size-IsTextOf}
use oh_my_terminal.FileTree.Folders.{run-folded-below, run-IsLoaded, IsLoaded}

abbrev is_after : Sign → Bool
is_after before = false
is_after same = false
is_after after = true

-- An insertion sort, for the platform's.
module _ {A : Type 0} (cmp : A → A → Sign) where
  insert : A → List A → List A
  insert x [] = x ∷ []
  insert x (y ∷ ys) = let rest = insert x ys in if is_after (cmp x y) then y ∷ rest else x ∷ y ∷ ys

  insertion_sort : List A → List A
  unfolding insert
  insertion_sort [] = []
  insertion_sort (x ∷ xs) = insert x (insertion_sort xs)

  insert-perm : (x : A) (l : List A) → Perm (insert x l) (x ∷ l)
  unfolding insert
  insert-perm x [] = Perm.rfl
  insert-perm x (y ∷ ys) =
      if_intro (λ r. Perm r (x ∷ y ∷ ys)) (is_after (cmp x y)) (y ∷ insert x ys) (x ∷ y ∷ ys)
        (λ _. Perm.trans (Perm.cons y (insert-perm x ys)) (Perm.swap x y ys)) (λ _. Perm.rfl)

  insert-All : (P : A → Type 0) (x : A) (l : List A) → P x → All P l → All P (insert x l)
  unfolding insert
  insert-All P x [] p a = (p, tt)
  insert-All P x (y ∷ ys) p a =
      if_intro (All P) (is_after (cmp x y)) (y ∷ insert x ys) (x ∷ y ∷ ys)
        (λ _. (a.0, insert-All P x ys p a.1)) (λ _. (p, a))

  module _ (c : IsConsistent cmp) where
    All-trans :
        (x y : A) (l : List A) → IsUpTo cmp x y → All (IsUpTo cmp y) l → All (IsUpTo cmp x) l
    All-trans x y [] p a = tt
    All-trans x y (z ∷ zs) p a = (c.1 x y z p a.0, All-trans x y zs p a.1)

    insert-IsSorted :
        (x : A) (l : List A) → IsSorted (IsUpTo cmp) l → IsSorted (IsUpTo cmp) (insert x l)
    unfolding insert
    insert-IsSorted x [] s = (tt, tt)
    insert-IsSorted x (y ∷ ys) s =
        if_intro (IsSorted (IsUpTo cmp)) (is_after (cmp x y)) (y ∷ insert x ys) (x ∷ y ∷ ys)
          (λ e. (
            insert-All (IsUpTo cmp y) x ys (ground (arith, c.0 x y)) s.0,
            insert-IsSorted x ys s.1,
          ))
          (λ e. let up : IsUpTo cmp x y = λ p. ground arith in ((up, All-trans x y ys up s.0), s))

    insertion_sort-both :
        (l : List A) → Perm (insertion_sort l) l × IsSorted (IsUpTo cmp) (insertion_sort l)
    unfolding insertion_sort
    insertion_sort-both [] = (Perm.rfl, tt)
    insertion_sort-both (x ∷ xs) =
        let (p, s) = insertion_sort-both xs in
        (
          Perm.trans (insert-perm x (insertion_sort xs)) (Perm.cons x p),
          insert-IsSorted x (insertion_sort xs) s,
        )

insertion_sort-IsSort : {A : Type 0} → IsSort {A = A} (λ cmp. insertion_sort cmp)
insertion_sort-IsSort cmp c l = insertion_sort-both cmp c l

-- Shorter names first.
abbrev by_length : List ℕ → List ℕ → Sign
by_length a b =
    if ltb (length a) (length b) then before else if length a == length b then same else after

by_length-IsConsistent : IsConsistent by_length
by_length-IsConsistent = (λ a b. ground arith, λ a b c h k. ground arith)

abbrev entry : List ℕ → Bool → FsEntry
entry name is_dir = record { name = name; is_dir = is_dir; size = 0; mod_time = [] }

abbrev some_entries : List FsEntry
some_entries = entry (97 ∷ 98 ∷ []) false ∷ entry (99 ∷ []) false ∷ entry (100 ∷ []) true ∷ []

abbrev platform_sort : (FsEntry → FsEntry → Sign) → List FsEntry → List FsEntry
platform_sort cmp = insertion_sort cmp

sort_entries-IsListing_example :
    Perm (sort_entries platform_sort by_length some_entries) some_entries
    × IsListing by_length (sort_entries platform_sort by_length some_entries)
sort_entries-IsListing_example =
    sort_entries-IsListing by_length platform_sort insertion_sort-IsSort by_length-IsConsistent
      some_entries

sorted_entries :
    sort_entries platform_sort by_length some_entries
    ≡ entry (100 ∷ []) true ∷ entry (99 ∷ []) false ∷ entry (97 ∷ 98 ∷ []) false ∷ []
unfolding sort_entries compare_entries insertion_sort insert
sorted_entries = refl

format_size-IsTextOf_example : IsTextOf (format_size 1536) 1536
format_size-IsTextOf_example = format_size-IsTextOf 1536

-- The largest size in KB is shown as 1024.0 KB.
rounded_up : format_size 1048575 ≡ in_kb 10240
unfolding format_size tenths
rounded_up = refl

-- The folder is opened, shut while it loads, and opened again after an error.
abbrev visits : List (Event ℕ)
visits = toggled ∷ toggled ∷ replied (refused (33 ∷ [])) ∷ toggled ∷ replied (listed 7) ∷ []

run-folded-below_example :
    let s = run folded visits in
    (s.in_flight ≤ 1)
    × (s.mounted ≡ true → s.expanded ≡ true → below s ≢ nothing)
    × (s.expanded ≡ false → below s ≡ nothing)
run-folded-below_example = run-folded-below visits (tt, (tt, (refl, (tt, (tt, tt)))))

visits-IsLoaded : IsLoaded 7 2 (run folded visits)
unfolding run step toggle load settle receive
visits-IsLoaded = (refl, refl, refl)

kept_entries : IsLoaded 7 2 (run (run folded visits) (toggled ∷ toggled ∷ []))
kept_entries = run-IsLoaded (toggled ∷ toggled ∷ []) 7 2 (run folded visits) visits-IsLoaded
