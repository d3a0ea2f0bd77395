-- ===== src/Editor.antt =====
-- frontend/src/features/terminal/FileEditor.tsx: the editor of a file. `Editor` has the states and
-- refs of the component for one path, and the write in flight. An effect's run is known by its number,
-- and a run that is not the last one is cancelled. Editor/World has the server beside the editor.
pub mod World
pub mod Sound
pub mod Saving
pub mod Reloads
mod Tests
use oh_my_terminal.Base.{
  ℕ, suc, String, String-discrete, Option, none, some, Bool, true, false, if◌then◌else◌, ◌==◌, not,
  ◌&&◌, ◌||◌, List, [], ◌∷◌, ite,
}

pub record Editor : Type 0 where
  pub content : Option String
  pub original : String
  pub loading : Bool
  pub error : String
  pub saving : Bool
  pub saving_ref : Bool
  -- the number of the last load, the write in flight, and the calls of `onClose`
  pub load_id : ℕ
  pub writing : Option String
  pub closings : ℕ

unfoldable pub is_dirty : Option String → String → Bool
is_dirty none original = false
is_dirty (some c) original = ite (String-discrete c original) false true

abbrev pub dirty : Editor → Bool
dirty s = is_dirty s.content s.original

-- The effect on `[path, t]`: it runs at the mount and whenever the language changes.
unfoldable pub load : Editor → Editor
load s = record s { loading = true; error = ""; content = none; load_id = suc s.load_id }

-- The answer to the load has this text.
unfoldable pub loaded : ℕ → String → Editor → Editor
loaded id text s =
    if id == s.load_id
    then record s { content = some text; original = text; loading = false }
    else s

unfoldable pub load_failed : ℕ → String → Editor → Editor
load_failed id e s = if id == s.load_id then record s { error = e; loading = false } else s

unfoldable pub save_content : Option String → Editor → Editor
save_content none s = s
save_content (some c) s =
    if s.saving_ref || not (dirty s)
    then s
    else record s { saving_ref = true; saving = true; writing = some c }

unfoldable pub save : Editor → Editor
unfolding save_content
save s = save_content s.content s

-- The answer to a write: it is done, or it failed.
unfoldable pub settle : Bool → Option String → Editor → Editor
settle ok none s = s
settle true (some c) s = record s {
  original = c;
  saving_ref = false;
  saving = false;
  writing = none;
}
settle false (some c) s = record s { saving_ref = false; saving = false; writing = none }

-- `ok` is the user's answer to the question whether to discard the changes.
unfoldable pub handle_close : Bool → Editor → Editor
handle_close ok s = if dirty s && not ok then s else record s { closings = suc s.closings }

pub data Event : Type 0 where
  mounts translates saves : Event
  loads : (id : ℕ) (text : String) → Event
  load_fails : (id : ℕ) (e : String) → Event
  types : String → Event
  answers : (ok : Bool) → Event
  closes : (ok : Bool) → Event

-- The text area is there only once a text is loaded.
unfoldable pub type_in : String → Option String → Editor → Editor
type_in text none s = s
type_in text (some _) s = record s { content = some text }

unfoldable pub step : Editor → Event → Editor
step s mounts = load s
step s translates = load s
step s saves = save s
step s (loads id text) = loaded id text s
step s (load_fails id e) = load_failed id e s
step s (types text) = type_in text s.content s
step s (answers ok) = settle ok s.writing s
step s (closes ok) = handle_close ok s

unfoldable pub run : Editor → List Event → Editor
run s [] = s
run s (e ∷ es) = run (step s e) es

-- What is shown: an error, that the file is loading, or the text area.
pub data View : Type 0 where
  alert : String → View
  wait : View
  area : String → View

unfoldable pub wait_or_area : Bool → Option String → View
wait_or_area true content = wait
wait_or_area false none = wait
wait_or_area false (some text) = area text

unfoldable pub shown : Editor → View
unfolding wait_or_area
shown s = ite (String-discrete s.error "") (wait_or_area s.loading s.content) (alert s.error)

-- The first render.
abbrev pub first_render : Editor
first_render = record {
  content = none;
  original = "";
  loading = true;
  error = "";
  saving = false;
  saving_ref = false;
  load_id = 0;
  writing = none;
  closings = 0;
}
