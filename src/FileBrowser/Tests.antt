-- ===== src/FileBrowser/Tests.antt =====
-- A run of the browser of files, and its theorem at it.
use oh_my_terminal.Base.{ℕ, ◌≡◌, some, none, true, false, List, [], ◌∷◌, refl, ◌==◌, if◌then◌else◌}
use oh_my_terminal.FileBrowser.{
  Browser, Event, drags, leaves, uploads, uploaded, loaded, toast_uploaded, closes, shown, no_files,
  tree, step, run,
}
use oh_my_terminal.FileBrowser.Uploads.{uploads-once}

abbrev listed : Browser ℕ ℕ
listed = record {
  listing = some 1;
  loading = false;
  error = [];
  uploading = false;
  uploading_ref = false;
  drag_over = false;
  editing = none;
  notices = [];
  load_id = 1;
  sent = [];
}

-- Other files are dropped while an upload is in flight.
abbrev dropped : List (Event ℕ ℕ)
dropped = drags ∷ uploads (8 ∷ []) ∷ leaves true ∷ []

uploads-once_example :
    let t = run (step listed (uploads (7 ∷ []))) dropped in
    let u = step t uploaded in
    (t.sent ≡ (7 ∷ []) ∷ [])
    × (u.uploading_ref ≡ false)
    × (u.drag_over ≡ false)
    × (u.notices ≡ toast_uploaded 1 ∷ t.notices)
    × (u.sent ≡ t.sent)
    × (u.loading ≡ true)
    × (step u (loaded 1 1) ≡ u)
    × (shown (λ n. n == 0) (step (step u (loaded u.load_id 2)) closes)
        ≡ (if 2 == 0 then no_files else tree 2))
uploads-once_example =
    uploads-once listed 7 [] dropped (λ n. n == 0) 1 2 refl (refl, (refl, (refl, tt)))
