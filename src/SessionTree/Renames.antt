-- ===== src/SessionTree/Renames.antt =====
-- What an input for a new name asks for.
use oh_my_terminal.Base.{
  ◌≡◌, ◌≢◌, String, String-discrete, Option, none, some, List, [], ◌∷◌, true, false, All, ite, refl,
  ap, ◌∙◌,
}
use oh_my_terminal.Workspaces.{Terminal, Workspace}
use oh_my_terminal.SessionTree.{
  RenameTarget, workspace, terminal, Call, rename_workspace, rename_terminal, RenameInput, Tree,
  find_workspace, find_terminal, workspace_call, terminal_call, terminal_call_in, named_calls,
  put_calls, commit_calls, commit_rename, commit, Event, typed, enter, escape, blur, input_event,
  on_input, step, run,
}

-- The value that the first Enter, Escape or blur hands over.
unfoldable pub first_commit : String → List Event → Option String
first_commit v [] = none
first_commit v (typed x ∷ es) = first_commit x es
first_commit v (enter ∷ es) = some v
first_commit v (escape ∷ es) = some ""
first_commit v (blur ∷ es) = some v

module _ (trim : String → String) (wss : List Workspace) where
  unfoldable pub committed : RenameTarget → Option String → List Call
  committed target none = []
  committed target (some v) = commit_calls trim wss target v

  -- The call gives the target, which is there, another name that is not empty.
  abbrev pub IsChange : RenameTarget → Call → Type 0
  IsChange (workspace ws_id) (rename_workspace ws name) =
      (find_workspace ws_id wss ≡ some ws) × (name ≢ ws.name) × (name ≢ "")
  IsChange (workspace ws_id) (rename_terminal ws tm name) = ⊥
  IsChange (terminal ws_id tm_id) (rename_workspace ws name) = ⊥
  IsChange (terminal ws_id tm_id) (rename_terminal ws tm name) =
      (find_workspace ws_id wss ≡ some ws)
      × (find_terminal tm_id ws.terminals ≡ some tm)
      × (name ≢ tm.name)
      × (name ≢ "")

  step-input :
      (s : Tree) (i : RenameInput) (x : Event)
      → s.input ≡ some i
      → step trim wss s x ≡ input_event trim wss i x s
  unfolding step on_input
  step-input s i x e = ap (λ o. on_input trim wss o x s) e

  commit-done :
      (i : RenameInput) (v : String) (s : Tree) → i.is_done ≡ true → commit trim wss i v s ≡ s
  unfolding commit
  commit-done i v s d = rw d refl

  -- An input that has handed over its value does nothing more.
  run-done :
      (es : List Event) (i : RenameInput) (s : Tree)
      → s.input ≡ some i
      → i.is_done ≡ true
      → (run trim wss s es).calls ≡ s.calls
  unfolding run input_event
  run-done [] i s e d = refl
  run-done (typed v ∷ es) i s e d =
      ap (λ t. (run trim wss t es).calls) (step-input s i (typed v) e)
      ∙ run-done es (record i { value = v }) _ refl d
  run-done (enter ∷ es) i s e d =
      ap (λ t. (run trim wss t es).calls) (step-input s i enter e ∙ commit-done i i.value s d)
      ∙ run-done es i s e d
  run-done (escape ∷ es) i s e d =
      ap (λ t. (run trim wss t es).calls) (step-input s i escape e ∙ commit-done i "" s d)
      ∙ run-done es i s e d
  run-done (blur ∷ es) i s e d =
      ap (λ t. (run trim wss t es).calls) (step-input s i blur e ∙ commit-done i i.value s d)
      ∙ run-done es i s e d

  abbrev handed : RenameInput → Tree → Tree
  handed i s = record s { input = some (record i { is_done = true }) }

  run-commit :
      (es : List Event) (x : Event) (i : RenameInput) (v : String) (s : Tree)
      → s.input ≡ some i
      → i.is_done ≡ false
      → input_event trim wss i x s ≡ commit trim wss i v s
      → (run trim wss s (x ∷ es)).calls ≡ put_calls (commit_calls trim wss i.target v) s.calls
  unfolding run commit commit_rename
  run-commit es x i v s e d h =
      ap (λ t. (run trim wss t es).calls) (step-input s i x e ∙ h ∙ rw d refl)
      ∙ run-done es (record i { is_done = true }) (commit_rename trim wss i.target v (handed i s))
          refl refl

  run-calls :
      (es : List Event) (i : RenameInput) (s : Tree)
      → s.input ≡ some i
      → i.is_done ≡ false
      → (run trim wss s es).calls ≡ put_calls (committed i.target (first_commit i.value es)) s.calls
  unfolding run input_event committed first_commit
  run-calls [] i s e d = refl
  run-calls (typed v ∷ es) i s e d =
      ap (λ t. (run trim wss t es).calls) (step-input s i (typed v) e)
      ∙ run-calls es (record i { value = v }) _ refl d
  run-calls (enter ∷ es) i s e d = run-commit es enter i i.value s e d refl
  run-calls (escape ∷ es) i s e d = run-commit es escape i "" s e d refl
  run-calls (blur ∷ es) i s e d = run-commit es blur i i.value s e d refl

  workspace_call-IsChange :
      (ws_id : String) (o : Option Workspace) (name : String)
      → find_workspace ws_id wss ≡ o
      → name ≢ ""
      → All (IsChange (workspace ws_id)) (workspace_call o name)
  workspace_call-IsChange ws_id none name e n = tt
  workspace_call-IsChange ws_id (some ws) name e n =
      elim (String-discrete name ws.name)
        as (λ d. All (IsChange (workspace ws_id)) (ite d [] (rename_workspace ws name ∷ []))) [
          | yes p ↦ tt
          | no p ↦ ((e, p, n), tt)
        ]

  terminal_call-IsChange :
      (ws_id tm_id : String) (ws : Workspace) (o : Option Terminal) (name : String)
      → find_workspace ws_id wss ≡ some ws
      → find_terminal tm_id ws.terminals ≡ o
      → name ≢ ""
      → All (IsChange (terminal ws_id tm_id)) (terminal_call ws o name)
  terminal_call-IsChange ws_id tm_id ws none name e f n = tt
  terminal_call-IsChange ws_id tm_id ws (some tm) name e f n =
      elim (String-discrete name tm.name)
        as (λ d.
          All (IsChange (terminal ws_id tm_id)) (ite d [] (rename_terminal ws tm name ∷ []))) [
            | yes p ↦ tt
            | no p ↦ ((e, f, p, n), tt)
          ]

  terminal_call_in-IsChange :
      (ws_id tm_id : String) (o : Option Workspace) (name : String)
      → find_workspace ws_id wss ≡ o
      → name ≢ ""
      → All (IsChange (terminal ws_id tm_id)) (terminal_call_in o tm_id name)
  unfolding terminal_call_in
  terminal_call_in-IsChange ws_id tm_id none name e n = tt
  terminal_call_in-IsChange ws_id tm_id (some ws) name e n =
      terminal_call-IsChange ws_id tm_id ws (find_terminal tm_id ws.terminals) name e refl n

  named_calls-IsChange :
      (target : RenameTarget) (name : String)
      → name ≢ ""
      → All (IsChange target) (named_calls wss target name)
  unfolding named_calls
  named_calls-IsChange (workspace ws_id) name n =
      workspace_call-IsChange ws_id (find_workspace ws_id wss) name refl n
  named_calls-IsChange (terminal ws_id tm_id) name n =
      terminal_call_in-IsChange ws_id tm_id (find_workspace ws_id wss) name refl n

  committed-IsChange :
      (target : RenameTarget) (o : Option String) → All (IsChange target) (committed target o)
  unfolding committed commit_calls
  committed-IsChange target none = tt
  committed-IsChange target (some v) =
      elim (String-discrete (trim v) "")
        as (λ d. All (IsChange target) (ite d [] (named_calls wss target (trim v)))) [
          | yes p ↦ tt
          | no p ↦ named_calls-IsChange target (trim v) p
        ]

  -- Whatever happens to a new input, only the value that the first Enter, Escape or blur hands over
  -- counts: at most the first call that it leads to is made, and no other. Each such call gives the
  -- target, which is there, another name that is not empty.
  pub run-first_commit :
      (es : List Event) (i : RenameInput) (s : Tree)
      → s.input ≡ some i
      → i.is_done ≡ false
      → let cs = committed i.target (first_commit i.value es) in
        ((run trim wss s es).calls ≡ put_calls cs s.calls) × All (IsChange i.target) cs
  run-first_commit es i s e d =
      (run-calls es i s e d, committed-IsChange i.target (first_commit i.value es))
