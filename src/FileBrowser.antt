-- ===== src/FileBrowser.antt =====
-- frontend/src/features/terminal/FileBrowser.tsx: the list of files, the file that is edited, and the
-- upload of files. `L` is the type of a list that the server sends and `F` that of a file. A run of
-- the effect that loads the list is known by its number; one that is not the last is cancelled. A path
-- and the text of an error are lists of code units.
pub mod Shown
pub mod Uploads
mod Tests
use oh_my_terminal.Base.{
  ℕ, suc, Option, none, some, Bool, true, false, List, [], ◌∷◌, if◌then◌else◌, ◌==◌, length, ltb,
}
use oh_my_terminal.FileTree.{join_path}

-- The file in the editor.
pub record Editing : Type 0 where
  pub name : List ℕ
  pub path : List ℕ

-- The calls of `notify`: how many files were uploaded, or the text of an error.
pub data Notice : Type 0 where
  toast_uploaded : ℕ → Notice
  toast_failed : List ℕ → Notice

-- What the component shows.
pub data View (L : Type 0) : Type 0 where
  editor : Editing → View L
  alert : List ℕ → View L
  wait no_files : View L
  tree : L → View L

pub record Browser (L F : Type 0) : Type 0 where
  pub listing : Option L
  pub loading : Bool
  pub error : List ℕ
  pub uploading : Bool
  pub uploading_ref : Bool
  pub drag_over : Bool
  pub editing : Option Editing
  -- latest first
  pub notices : List Notice
  -- the number of the last run of the effect, and the requests to upload, latest first
  pub load_id : ℕ
  pub sent : List (List F)

pub data Event (L F : Type 0) : Type 0 where
  loads : Event L F
  loaded : (id : ℕ) → L → Event L F
  load_failed : (id : ℕ) (e : List ℕ) → Event L F
  uploads : List F → Event L F
  uploaded : Event L F
  upload_failed : (e : List ℕ) → Event L F
  drags : Event L F
  leaves : (on_itself : Bool) → Event L F
  opens : (name dir : List ℕ) → Event L F
  closes : Event L F

unfoldable pub list_view : {L : Type 0} → (L → Bool) → Option L → View L
list_view no_entries none = wait
list_view no_entries (some l) = if no_entries l then no_files else tree l

-- The files of the request that is in flight are those sent last.
unfoldable pub file_count : {F : Type 0} → List (List F) → ℕ
file_count [] = 0
file_count (fs ∷ older) = length fs

module _ {L F : Type 0} where
  -- The effect on `[path, tick, t]`.
  unfoldable pub load : Browser L F → Browser L F
  load s = record s { loading = true; error = []; load_id = suc s.load_id }

  unfoldable pub on_loaded : ℕ → L → Browser L F → Browser L F
  on_loaded id l s = if id == s.load_id then record s { listing = some l; loading = false } else s

  unfoldable pub on_load_failed : ℕ → List ℕ → Browser L F → Browser L F
  on_load_failed id e s = if id == s.load_id then record s { error = e; loading = false } else s

  unfoldable pub upload : List F → Browser L F → Browser L F
  upload [] s = s
  upload (f ∷ fs) s =
      if s.uploading_ref
      then s
      else record s { uploading_ref = true; uploading = true; sent = (f ∷ fs) ∷ s.sent }

  -- `finally`
  unfoldable pub end_upload : Browser L F → Browser L F
  end_upload s = record s { uploading_ref = false; uploading = false; drag_over = false }

  unfoldable pub notify : Notice → Browser L F → Browser L F
  notify n s = record s { notices = n ∷ s.notices }

  -- A request to upload is answered only while one is in flight; `setTick` runs the effect.
  unfoldable pub on_uploaded : Browser L F → Browser L F
  unfolding end_upload load notify file_count
  on_uploaded s =
      if s.uploading_ref
      then load (end_upload (notify (toast_uploaded (file_count s.sent)) s))
      else s

  unfoldable pub on_upload_failed : List ℕ → Browser L F → Browser L F
  unfolding end_upload notify
  on_upload_failed e s = if s.uploading_ref then end_upload (notify (toast_failed e) s) else s

  unfoldable pub open_file : List ℕ → List ℕ → Browser L F → Browser L F
  open_file name dir s = record s {
    editing = some (record { name = name; path = join_path dir name });
  }

  unfoldable pub browse_view : (L → Bool) → Browser L F → View L
  unfolding list_view
  browse_view no_entries s =
      if ltb 0 (length s.error)
      then alert s.error
      else (if s.loading then wait else list_view no_entries s.listing)

  unfoldable pub shown_with : (L → Bool) → Browser L F → Option Editing → View L
  shown_with no_entries s none = browse_view no_entries s
  shown_with no_entries s (some e) = editor e

  unfoldable pub shown : (L → Bool) → Browser L F → View L
  unfolding shown_with
  shown no_entries s = shown_with no_entries s s.editing

  -- The first render, with the run of the effect after it.
  unfoldable pub mounted : Browser L F
  unfolding load
  mounted = load (record {
    listing = none;
    loading = true;
    error = [];
    uploading = false;
    uploading_ref = false;
    drag_over = false;
    editing = none;
    notices = [];
    load_id = 0;
    sent = [];
  })

  unfoldable pub step : Browser L F → Event L F → Browser L F
  step s loads = load s
  step s (loaded id l) = on_loaded id l s
  step s (load_failed id e) = on_load_failed id e s
  step s (uploads fs) = upload fs s
  step s uploaded = on_uploaded s
  step s (upload_failed e) = on_upload_failed e s
  step s drags = record s { drag_over = true }
  step s (leaves on_itself) = if on_itself then record s { drag_over = false } else s
  step s (opens name dir) = open_file name dir s
  step s closes = record s { editing = none }

  unfoldable pub run : Browser L F → List (Event L F) → Browser L F
  run s [] = s
  run s (e ∷ es) = run (step s e) es
