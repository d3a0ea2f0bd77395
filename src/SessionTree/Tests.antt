-- ===== src/SessionTree/Tests.antt =====
-- Runs of an input for a name, and the theorem at one.
use oh_my_terminal.Base.{◌≡◌, String, String-discrete, some, List, [], ◌∷◌, false, All, refl}
use oh_my_terminal.Workspaces.{Workspace}
use oh_my_terminal.SessionTree.{
  workspace, rename_workspace, RenameInput, Tree, Event, typed, enter, escape, blur, run, step,
  on_input, input_event, commit, commit_rename, commit_calls, named_calls, find_workspace,
  put_calls,
}
use oh_my_terminal.SessionTree.Renames.{first_commit, committed, IsChange, run-first_commit}

abbrev home : Workspace
home = record { id = "w"; name = "home"; path = "/home"; terminals = [] }

-- No spaces are trimmed.
abbrev as_is : String → String
as_is s = s

abbrev fresh : RenameInput
fresh = record { target = workspace "w"; value = "home"; is_done = false }

abbrev renaming : Tree
renaming = record { rename = some (workspace "w"); input = some fresh; calls = [] }

-- The blur comes from the input's going away.
abbrev keys : List Event
keys = typed "base" ∷ enter ∷ blur ∷ []

run-first_commit_example :
    let cs = committed as_is (home ∷ []) (workspace "w") (first_commit "home" keys) in
    ((run as_is (home ∷ []) renaming keys).calls ≡ put_calls cs [])
    × All (IsChange as_is (home ∷ []) (workspace "w")) cs
run-first_commit_example = run-first_commit as_is (home ∷ []) keys fresh renaming refl refl

renamed_once : (run as_is (home ∷ []) renaming keys).calls ≡ rename_workspace home "base" ∷ []
unfolding run step on_input input_event commit commit_rename commit_calls named_calls find_workspace
    String-discrete
renamed_once = refl

not_renamed : (run as_is (home ∷ []) renaming (typed "base" ∷ escape ∷ blur ∷ [])).calls ≡ []
unfolding run step on_input input_event commit commit_rename commit_calls named_calls find_workspace
    String-discrete
not_renamed = refl
