-- ===== src/Editor/Tests.antt =====
-- Runs of the editor, and its theorems at them.
use oh_my_terminal.Base.{suc, ◌≡◌, String-discrete, none, some, List, [], ◌∷◌, true, false, refl}
use oh_my_terminal.Editor.{
  Editor, dirty, is_dirty, mounts, loads, types, translates, saves, answers, closes, step, run,
  first_render, load, loaded, type_in, save, save_content, settle, Event, shown, wait, area,
}
use oh_my_terminal.Editor.World.{World, begin, Reached, begins, then_one, serves, arrives}
use oh_my_terminal.Editor.World
use oh_my_terminal.Editor.Saving.{IsSaved, Reached-IsSaved}
use oh_my_terminal.Editor.Reloads.{translates-drops}

-- A file is loaded and changed.
abbrev changed : Editor
changed = run first_render (mounts ∷ loads 1 "a" ∷ types "b" ∷ [])

changed-content : changed.content ≡ some "b"
unfolding run step load loaded type_in
changed-content = refl

changed-dirty : dirty changed ≡ true
unfolding run step load loaded type_in is_dirty String-discrete
changed-dirty = refl

abbrev read_world : World
read_world = record (begin "a") { asked = false; served = some "a" }

abbrev loaded_world : World
loaded_world = record read_world {
  editor = loaded read_world.editor.load_id "a" read_world.editor;
  served = none;
}

abbrev changed_world : World
changed_world = record loaded_world {
  editor = type_in "b" loaded_world.editor.content loaded_world.editor;
}

changed_world-Reached : Reached "a" changed_world
changed_world-Reached =
    then_one (then_one (then_one begins (serves refl)) (arrives "a" refl)) (World.types "b")

Reached-IsSaved_example : IsSaved changed_world
Reached-IsSaved_example = Reached-IsSaved changed_world-Reached

-- Keys are pressed and the editor is closed before the file is there again.
abbrev presses : List Event
presses = types "c" ∷ closes false ∷ []

translates-drops_example :
    let t = run (step changed translates) presses in
    let u = step t (loads (suc changed.load_id) "a") in
    (t.content ≡ none)
    × (shown t ≡ wait)
    × ((step t (closes false)).closings ≡ suc t.closings)
    × (shown u ≡ area "a")
    × (dirty u ≡ false)
translates-drops_example = translates-drops changed presses "a" (tt, (tt, tt))

-- The language changes while "b" is being written, and the server reads the file before it writes: the
-- editor shows "a" as saved, and the file is "b".
abbrev stale : Editor
stale = run changed (saves ∷ translates ∷ answers true ∷ loads 2 "a" ∷ [])

stale-content : stale.content ≡ some "a"
unfolding run step load loaded type_in save save_content is_dirty String-discrete settle
stale-content = refl

stale-dirty : dirty stale ≡ false
unfolding run step load loaded type_in save save_content is_dirty String-discrete settle
stale-dirty = refl
