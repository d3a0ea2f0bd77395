-- ===== src/FileTree/Folders.antt =====
-- A folder's lazy load.
use oh_my_terminal.Base.{
  ℕ, ◌≤◌, ◌≡◌, ◌≢◌, some, List, [], ◌∷◌, true, false, ltb, length, All, arith, if◌then◌else◌,
  if_intro, ap,
}
use oh_my_terminal.FileTree.{
  Folder, Reply, listed, refused, Event, toggled, unmounted, replied, nothing, folded, is_none,
  load, toggle, receive, settle, step, run, children_below, below,
}

module _ {L : Type 0} where
  -- The text of an error is not empty.
  abbrev pub IsTold : Event L → Type 0
  IsTold (replied (refused message)) = ltb 0 (length message) ≡ true
  IsTold (replied (listed _)) = Unit
  IsTold toggled = Unit
  IsTold unmounted = Unit

  -- One request at most is in flight; while the row is there, one is exactly while the folder is
  -- loading; it is not loading once its entries are there; and an open folder that is not loading has
  -- its entries or an error to show.
  abbrev pub IsSound : Folder L → Type 0
  IsSound s =
      (s.in_flight ≤ 1)
      × (s.mounted ≡ true → s.in_flight ≡ (if s.loading then 1 else 0))
      × (s.mounted ≡ true → s.loading ≡ true → is_none s.children ≡ true)
      × (s.mounted ≡ true
          → s.expanded ≡ true
          → is_none s.children ≡ true
          → s.loading ≡ false
          → ltb 0 (length s.error) ≡ true)

  toggle-IsSound : (s : Folder L) → s.mounted ≡ true → IsSound s → IsSound (toggle s)
  unfolding toggle load
  toggle-IsSound s m v = ground arith

  settle-IsSound :
      (r : Reply L) (s : Folder L) → IsTold (replied r) → IsSound s → IsSound (settle r s)
  unfolding settle receive
  settle-IsSound (listed res) s h v = ground arith
  settle-IsSound (refused message) s h v = ground arith

  step-IsSound : (s : Folder L) (e : Event L) → IsTold e → IsSound s → IsSound (step s e)
  unfolding step
  step-IsSound s toggled h v =
      if_intro IsSound s.mounted (toggle s) s (λ m. toggle-IsSound s m v) (λ _. v)
  step-IsSound s unmounted h v = (v.0, λ m. absurd (cc m), λ m. absurd (cc m), λ m. absurd (cc m))
  step-IsSound s (replied r) h v = settle-IsSound r s h v

  run-IsSound :
      (es : List (Event L)) (s : Folder L) → All IsTold es → IsSound s → IsSound (run s es)
  unfolding run
  run-IsSound [] s h v = v
  run-IsSound (e ∷ es) s h v = run-IsSound es (step s e) h.1 (step-IsSound s e h.0 v)

  below-shown :
      (s : Folder L) → IsSound s → s.mounted ≡ true → s.expanded ≡ true → below s ≢ nothing
  unfolding below children_below
  below-shown s v m x e = ground arith

  -- If the texts of errors are not empty, then from a folded folder on, whatever the user and the
  -- server do, at most one request is in flight, and while the row is there something is shown below
  -- it exactly if it is expanded: that the folder is loading, an error, or its entries.
  pub run-folded-below :
      (es : List (Event L))
      → All IsTold es
      → let s = run folded es in
        (s.in_flight ≤ 1)
        × (s.mounted ≡ true → s.expanded ≡ true → below s ≢ nothing)
        × (s.expanded ≡ false → below s ≡ nothing)
  unfolding below children_below
  run-folded-below es h =
      let s = run {L = L} folded es in
      let v : IsSound s = run-IsSound es folded h (ground arith) in
      (v.0, below-shown s v, ground arith)

  -- The entries are there, and no request is in flight.
  abbrev pub IsLoaded : L → ℕ → Folder L → Type 0
  IsLoaded res n s = (s.children ≡ some res) × (s.in_flight ≡ 0) × (s.requests ≡ n)

  step-IsLoaded :
      (res : L) (n : ℕ) (s : Folder L) (e : Event L) → IsLoaded res n s → IsLoaded res n (step s e)
  unfolding step toggle settle
  step-IsLoaded res n s toggled v = ground (arith, ap is_none v.0)
  step-IsLoaded res n s unmounted v = v
  step-IsLoaded res n s (replied r) v = ground arith

  -- Once the entries are there and no request is in flight, no other request is made and the entries
  -- stay, whatever happens.
  pub run-IsLoaded :
      (es : List (Event L)) (res : L) (n : ℕ) (s : Folder L)
      → IsLoaded res n s
      → IsLoaded res n (run s es)
  unfolding run
  run-IsLoaded [] res n s v = v
  run-IsLoaded (e ∷ es) res n s v = run-IsLoaded es res n (step s e) (step-IsLoaded res n s e v)
