-- ===== src/Wizard/Picker.antt =====
-- frontend/src/features/workspace/WorkspaceWizard.tsx: `useFolderPicker`. The runs of its effect are
-- numbered; the answer to the request of a run is ignored once its cleanup has run, which is so for
-- every run but the last, and for that one when the dialog is shut.
pub mod Runs
pub mod Settling
use oh_my_terminal.Base.{
  ℕ, suc, String, String-discrete, Option, none, some, List, [], ◌∷◌, Bool, true, false, ite, ◌==◌,
  if◌then◌else◌,
}
use oh_my_terminal.Wizard.{take_request, drop_request}

-- What the server answers about a folder.
pub record FsBrowse : Type 0 where
  pub path : String
  pub parent : Option String
  pub dirs : List String

pub record Picker : Type 0 where
  pub active : Bool
  pub data_shown : Option FsBrowse
  pub selected : Option String
  pub loading : Bool
  pub error : String
  pub tick : ℕ
  -- the number of the last run, and one more when its cleanup has run
  pub generation : ℕ
  -- the requests in flight: the numbers of their runs, and the paths
  pub pending : List (ℕ × String)

pub data Reply : Type 0 where
  browsed : FsBrowse → Reply
  refused : (message : String) → Reply

pub data Event : Type 0 where
  opened shut reloaded : Event
  -- the language has changed, and with it `t`
  translated : Event
  navigated : (path : String) → Event
  -- the answer to a request in flight, by its place
  replied : (place : ℕ) → Reply → Event

abbrev pub or_root : Option String → String
or_root none = ""
or_root (some path) = path

-- A run of the effect, behind its guard; the cleanup of the run before it comes first.
unfoldable pub browse : Picker → Picker
browse s = record s {
  loading = true;
  error = "";
  generation = suc s.generation;
  pending = (suc s.generation, or_root s.selected) ∷ s.pending;
}

-- The effect runs again when what it depends on has changed.
unfoldable pub rerun : Picker → Picker
unfolding browse
rerun s = if s.active then browse s else s

abbrev pub is_selected : Option String → String → Bool
is_selected none path = false
is_selected (some p) path = ite (String-discrete p path) true false

unfoldable pub set_selected : String → Picker → Picker
unfolding rerun
set_selected path s =
    if is_selected s.selected path then s else rerun (record s { selected = some path })

unfoldable pub conclude : Reply → Picker → Picker
unfolding set_selected
conclude (browsed res) s =
    set_selected res.path (record s { data_shown = some res; loading = false })
conclude (refused message) s = record s { error = message; loading = false }

unfoldable pub settle : Option (ℕ × String) → ℕ → Reply → Picker → Picker
unfolding conclude
settle none place r s = s
settle (some (g, path)) place r s =
    let taken = record s { pending = drop_request place s.pending } in
    if g == s.generation then conclude r taken else taken

unfoldable pub shut_down : Picker → Picker
shut_down s = record s {
  active = false;
  data_shown = none;
  selected = none;
  error = "";
  tick = 0;
  generation = suc s.generation;
}

unfoldable pub step : Picker → Event → Picker
unfolding rerun settle shut_down
step s opened = if s.active then s else rerun (record s { active = true })
step s shut = if s.active then shut_down s else s
step s reloaded = rerun (record s { tick = suc s.tick })
step s translated = rerun s
step s (navigated path) = set_selected path s
step s (replied place r) = settle (take_request place s.pending) place r s

unfoldable pub run : Picker → List Event → Picker
unfolding step
run s [] = s
run s (e ∷ es) = run (step s e) es

abbrev pub unopened : Picker
unopened = record {
  active = false;
  data_shown = none;
  selected = none;
  loading = false;
  error = "";
  tick = 0;
  generation = 0;
  pending = [];
}
