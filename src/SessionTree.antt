-- ===== src/SessionTree.antt =====
-- frontend/src/components/SessionTree.tsx: renaming in the sidebar, and copying the command to attach
-- to a terminal. `trim` is the platform's. `calls` are the calls of `onRenameWorkspace` and
-- `onRenameTerminal`, latest first.
pub mod Renames
mod Tests
use oh_my_terminal.Base.{
  String, String-discrete, Option, none, some, List, [], ◌∷◌, Bool, true, false, ite, if◌then◌else◌,
}
use oh_my_terminal.Workspaces.{Terminal, Workspace, Answer, failed, answered, Toast, success, error}

pub data RenameTarget : Type 0 where
  workspace : (ws_id : String) → RenameTarget
  terminal : (ws_id tm_id : String) → RenameTarget

pub data Call : Type 0 where
  rename_workspace : Workspace → (name : String) → Call
  rename_terminal : Workspace → Terminal → (name : String) → Call

-- `RenameInput`, with the target that its `onCommit` is about.
pub record RenameInput : Type 0 where
  pub target : RenameTarget
  pub value : String
  -- `done.current`
  pub is_done : Bool

pub record Tree : Type 0 where
  pub rename : Option RenameTarget
  pub input : Option RenameInput
  pub calls : List Call

-- `find` by the id
unfoldable pub find_workspace : String → List Workspace → Option Workspace
find_workspace id [] = none
find_workspace id (w ∷ ws) = ite (String-discrete w.id id) (some w) (find_workspace id ws)

unfoldable pub find_terminal : String → List Terminal → Option Terminal
find_terminal id [] = none
find_terminal id (x ∷ xs) = ite (String-discrete x.id id) (some x) (find_terminal id xs)

abbrev pub workspace_call : Option Workspace → String → List Call
workspace_call none name = []
workspace_call (some ws) name =
    ite (String-discrete name ws.name) [] (rename_workspace ws name ∷ [])

abbrev pub terminal_call : Workspace → Option Terminal → String → List Call
terminal_call ws none name = []
terminal_call ws (some tm) name =
    ite (String-discrete name tm.name) [] (rename_terminal ws tm name ∷ [])

terminal_call_in : Option Workspace → String → String → List Call
unfolding find_terminal
terminal_call_in none tm_id name = []
terminal_call_in (some ws) tm_id name = terminal_call ws (find_terminal tm_id ws.terminals) name

-- The calls of `commitRename` for a name that is not empty: one or none.
unfoldable pub named_calls : List Workspace → RenameTarget → String → List Call
unfolding find_workspace terminal_call_in
named_calls wss (workspace ws_id) name = workspace_call (find_workspace ws_id wss) name
named_calls wss (terminal ws_id tm_id) name = terminal_call_in (find_workspace ws_id wss) tm_id name

abbrev pub put_calls : List Call → List Call → List Call
put_calls [] calls = calls
put_calls (c ∷ cs) calls = c ∷ calls

pub data Event : Type 0 where
  typed : (value : String) → Event
  enter escape blur : Event

module _ (trim : String → String) (wss : List Workspace) where
  unfoldable pub commit_calls : RenameTarget → String → List Call
  unfolding named_calls
  commit_calls target value =
      ite (String-discrete (trim value) "") [] (named_calls wss target (trim value))

  unfoldable pub commit_rename : RenameTarget → String → Tree → Tree
  unfolding commit_calls
  commit_rename target value s = record s {
    rename = none;
    calls = put_calls (commit_calls target value) s.calls;
  }

  -- `commit` of the input; `done` stays set as long as the input is mounted.
  unfoldable pub commit : RenameInput → String → Tree → Tree
  unfolding commit_rename
  commit i v s =
      if i.is_done
      then s
      else commit_rename i.target v (record s { input = some (record i { is_done = true }) })

  input_event : RenameInput → Event → Tree → Tree
  unfolding commit
  input_event i (typed value) s = record s { input = some (record i { value = value }) }
  input_event i enter s = commit i i.value s
  input_event i escape s = commit i "" s
  input_event i blur s = commit i i.value s

  on_input : Option RenameInput → Event → Tree → Tree
  unfolding input_event
  on_input none e s = s
  on_input (some i) e s = input_event i e s

  -- What happens to the input that is mounted.
  unfoldable pub step : Tree → Event → Tree
  unfolding on_input
  step s e = on_input s.input e s

  unfoldable pub run : Tree → List Event → Tree
  unfolding step
  run s [] = s
  run s (e ∷ es) = run (step s e) es

-- A button of a row is clicked.
unfoldable pub start_rename : RenameTarget → Tree → Tree
start_rename target s = record s { rename = some target }

-- A new input is mounted for the target, with the name that it has then.
unfoldable pub mount_input : RenameTarget → (initial : String) → Tree → Tree
mount_input target initial s = record s {
  input = some (record { target = target; value = initial; is_done = false });
}

-- The render after `setRename(null)`.
unfoldable pub unmount_input : Tree → Tree
unmount_input s = record s { input = none }

-- `copyAttach`, from the answer to the request and from whether the clipboard takes the text: what is
-- written, and the notice.
unfoldable pub copy_attach : Answer String → Bool → Option String × Toast
copy_attach failed ok = (none, error "toast.copyFailed")
copy_attach (answered command) true = (some command, success "toast.copied")
copy_attach (answered command) false = (none, error "toast.copyFailed")
