-- ===== src/FileBrowser/Uploads.antt =====
-- One upload at a time, and a list that is loaded again after it.
use oh_my_terminal.Base.{
  ℕ, ◌≡◌, ◌≤◌, ◌∙◌, some, Bool, true, false, List, [], ◌∷◌, suc, length, none, ltb, if◌then◌else◌,
  ap, All, arith, refl,
}
use oh_my_terminal.FileBrowser.{
  Browser, Event, loads, loaded, load_failed, uploads, uploaded, upload_failed, drags, leaves,
  opens, closes, toast_uploaded, file_count, shown, shown_with, browse_view, list_view, alert, wait,
  no_files, tree, load, notify, open_file, on_loaded, on_load_failed, upload, end_upload,
  on_uploaded, step, run,
}

-- The events that answer an upload.
abbrev pub answers_upload : {L F : Type 0} → Event L F → Bool
answers_upload uploaded = true
answers_upload (upload_failed _) = true
answers_upload _ = false

module _ {L F : Type 0} where
  busy-step :
      (s : Browser L F) (e : Event L F)
      → s.uploading_ref ≡ true
      → answers_upload e ≡ false
      → ((step s e).uploading_ref ≡ true)
        × ((step s e).sent ≡ s.sent)
        × (s.load_id ≤ (step s e).load_id)
  unfolding step load on_loaded on_load_failed upload open_file
  busy-step s loads b n = (b, refl, omega arith)
  busy-step s (loaded id l) b n = ground arith
  busy-step s (load_failed id e) b n = ground arith
  busy-step s (uploads []) b n = ground arith
  busy-step s (uploads (f ∷ fs)) b n = ground arith
  busy-step s uploaded b n = absurd (cc)
  busy-step s (upload_failed e) b n = absurd (cc)
  busy-step s drags b n = (b, refl, omega arith)
  busy-step s (leaves on_itself) b n = ground arith
  busy-step s (opens name dir) b n = (b, refl, omega arith)
  busy-step s closes b n = (b, refl, omega arith)

  busy-run :
      (s : Browser L F) (es : List (Event L F))
      → s.uploading_ref ≡ true
      → All (λ e. answers_upload e ≡ false) es
      → ((run s es).uploading_ref ≡ true)
        × ((run s es).sent ≡ s.sent)
        × (s.load_id ≤ (run s es).load_id)
  unfolding run
  busy-run s [] b n = (b, refl, omega arith)
  busy-run s (e ∷ es) b n =
      let (b', same, le) = busy-step s e b n.0 in
      let (b″, same', le') = busy-run (step s e) es b' n.1 in
      (b″, same' ∙ same, omega (arith, le, le'))

  started :
      (s : Browser L F) (f : F) (fs : List F)
      → s.uploading_ref ≡ false
      → let t = step s (uploads (f ∷ fs)) in
        (t.uploading_ref ≡ true) × (t.sent ≡ (f ∷ fs) ∷ s.sent) × (t.load_id ≡ s.load_id)
  unfolding step upload
  started s f fs b = ground arith

  answered :
      (s : Browser L F) (id : ℕ) (fs : List F) (older : List (List F)) (old new : L)
      → s.uploading_ref ≡ true
      → s.sent ≡ fs ∷ older
      → id ≤ s.load_id
      → let t = step s uploaded in
        (t.uploading_ref ≡ false)
        × (t.drag_over ≡ false)
        × (t.notices ≡ toast_uploaded (length fs) ∷ s.notices)
        × (t.sent ≡ s.sent)
        × (t.loading ≡ true)
        × (step t (loaded id old) ≡ t)
        × (let u = step (step t (loaded t.load_id new)) closes in
            (u.listing ≡ some new) × (u.loading ≡ false) × (u.error ≡ []) × (u.editing ≡ none))
  unfolding step on_uploaded on_loaded end_upload load notify file_count
  answered s id fs older old new b e le = ground arith

  listed-shown :
      (no_entries : L → Bool) (s : Browser L F) (l : L)
      → (s.listing ≡ some l) × (s.loading ≡ false) × (s.error ≡ []) × (s.editing ≡ none)
      → shown no_entries s ≡ (if no_entries l then no_files else tree l)
  unfolding shown shown_with browse_view list_view
  listed-shown no_entries s l (listing, loading, error, editing) =
      ap (shown_with no_entries s) editing
      ∙ ap
          (λ e.
            if ltb 0 (length e)
            then alert e
            else (if s.loading then wait else list_view no_entries s.listing))
          error
      ∙ ap (λ b. if b then wait else list_view no_entries s.listing) loading
      ∙ ap (list_view no_entries) listing

  -- When files are uploaded while no upload is in flight, one request is sent, and no other until it
  -- is answered, whatever happens. Once it is answered well, the number of the files is told, the
  -- files are not shown as being dragged any more, and the list is loaded again: the answer to the last
  -- load before the upload changes nothing any more, and after that to the new load the browser shows
  -- the new list, or that it is empty, as soon as no file is edited.
  pub uploads-once :
      (s : Browser L F) (f : F) (fs : List F) (es : List (Event L F)) (no_entries : L → Bool)
      (old new : L)
      → s.uploading_ref ≡ false
      → All (λ e. answers_upload e ≡ false) es
      → let t = run (step s (uploads (f ∷ fs))) es in
        let u = step t uploaded in
        (t.sent ≡ (f ∷ fs) ∷ s.sent)
        × (u.uploading_ref ≡ false)
        × (u.drag_over ≡ false)
        × (u.notices ≡ toast_uploaded (suc (length fs)) ∷ t.notices)
        × (u.sent ≡ t.sent)
        × (u.loading ≡ true)
        × (step u (loaded s.load_id old) ≡ u)
        × (shown no_entries (step (step u (loaded u.load_id new)) closes)
            ≡ (if no_entries new then no_files else tree new))
  uploads-once s f fs es no_entries old new b n =
      let (b', same, id) = started s f fs b in
      let (b″, same', le) = busy-run (step s (uploads (f ∷ fs))) es b' n in
      let t = run (step s (uploads (f ∷ fs))) es in
      let (free, calm, told, sent_same, loading, stale, fresh) =
        answered t s.load_id (f ∷ fs) s.sent old new b″ (same' ∙ same) (omega (arith, id, le)) in
      let u = step t uploaded in
      (
        same' ∙ same,
        free,
        calm,
        told,
        sent_same,
        loading,
        stale,
        listed-shown no_entries (step (step u (loaded u.load_id new)) closes) new fresh,
      )
