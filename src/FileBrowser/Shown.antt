-- ===== src/FileBrowser/Shown.antt =====
-- What the browser of files shows.
use oh_my_terminal.Base.{
  ◌≡◌, ◌≢◌, some, none, Bool, true, false, List, [], ◌∷◌, All, arith, ltb, length, Option,
}
use oh_my_terminal.FileBrowser.{
  Browser, Editing, Event, loads, loaded, load_failed, uploads, uploaded, upload_failed, drags,
  leaves, opens, closes, wait, load, on_loaded, on_load_failed, upload, end_upload, on_uploaded,
  on_upload_failed, notify, open_file, list_view, browse_view, shown_with, shown, mounted, step,
  run,
}
use oh_my_terminal.FileTree.{is_none}

module _ {L F : Type 0} where
  -- The text of an error is not empty.
  abbrev pub IsTold : Event L F → Type 0
  IsTold (load_failed _ e) = ltb 0 (length e) ≡ true
  IsTold _ = Unit

  -- A browser that does not load has a list or an error to show.
  abbrev pub IsSettled : Browser L F → Type 0
  IsSettled s = s.loading ≡ false → is_none s.listing ≡ true → ltb 0 (length s.error) ≡ true

  step-IsSettled : (s : Browser L F) (e : Event L F) → IsTold e → IsSettled s → IsSettled (step s e)
  unfolding step load on_loaded on_load_failed upload end_upload on_uploaded on_upload_failed notify
      open_file
  step-IsSettled s loads h v = ground arith
  step-IsSettled s (loaded id l) h v = ground arith
  step-IsSettled s (load_failed id e) h v = ground arith
  step-IsSettled s (uploads []) h v = v
  step-IsSettled s (uploads (f ∷ fs)) h v = ground arith
  step-IsSettled s uploaded h v = ground arith
  step-IsSettled s (upload_failed e) h v = ground arith
  step-IsSettled s drags h v = v
  step-IsSettled s (leaves on_itself) h v = ground arith
  step-IsSettled s (opens name dir) h v = v
  step-IsSettled s closes h v = v

  run-IsSettled :
      (es : List (Event L F)) (s : Browser L F) → All IsTold es → IsSettled s → IsSettled (run s es)
  unfolding run
  run-IsSettled [] s h v = v
  run-IsSettled (e ∷ es) s h v = run-IsSettled es (step s e) h.1 (step-IsSettled s e h.0 v)

  browse_view-wait :
      (no_entries : L → Bool) (s : Browser L F)
      → IsSettled s
      → s.loading ≡ false
      → browse_view no_entries s ≢ wait
  unfolding browse_view list_view
  browse_view-wait no_entries s v b e = ground arith

  shown-wait :
      (no_entries : L → Bool) (s : Browser L F) (x : Option Editing)
      → IsSettled s
      → s.loading ≡ false
      → shown_with no_entries s x ≢ wait
  unfolding shown_with
  shown-wait no_entries s none v b e = browse_view-wait no_entries s v b e
  shown-wait no_entries s (some x) v b e = absurd (cc e)

  -- If the texts of errors are not empty, then whatever the user and the server do from the first
  -- render on, a browser that is not loading has something to show.
  run-mounted-shown :
      (no_entries : L → Bool) (es : List (Event L F))
      → All IsTold es
      → let s = run mounted es in s.loading ≡ false → shown no_entries s ≢ wait
  unfolding shown mounted load
  run-mounted-shown no_entries es h b e =
      let s = run mounted es in
      shown-wait no_entries s s.editing (run-IsSettled es mounted h (λ b. absurd (cc b))) b e
