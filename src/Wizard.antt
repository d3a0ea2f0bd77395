-- ===== src/Wizard.antt =====
-- frontend/src/features/workspace/WorkspaceWizard.tsx: the dialog that creates a workspace. A text is
-- a list of code units; `trim` is the platform's function, an argument. `pending` has, for each
-- request in flight, the generation that `create` kept for it.
pub mod Requests
pub mod Basename
pub mod Picker
mod Tests
use oh_my_terminal.Base.{
  ℕ, zero, suc, ◌-◌, Option, none, some, List, [], ◌∷◌, ◌++◌, Bool, true, false, if◌then◌else◌,
  ◌==◌, not, ◌&&◌, ◌||◌, ltb, length,
}

-- `basename`
abbrev pub slash : ℕ
slash = 47

unfoldable pub ends_with_slash : List ℕ → Bool
ends_with_slash [] = false
ends_with_slash (c ∷ []) = c == slash
ends_with_slash (c ∷ d ∷ cs) = ends_with_slash (d ∷ cs)

unfoldable pub drop_last : List ℕ → List ℕ
drop_last [] = []
drop_last (c ∷ []) = []
drop_last (c ∷ d ∷ cs) = c ∷ drop_last (d ∷ cs)

-- What follows the last slash, if there is one.
unfoldable pub after_slash : List ℕ → Option (List ℕ)
after_slash [] = none
after_slash (c ∷ cs) = elim (after_slash cs) [
  | some rest ↦ some rest
  | none ↦ if c == slash then some cs else none
]

unfoldable pub or_all : List ℕ → Option (List ℕ) → List ℕ
or_all trimmed none = trimmed
or_all trimmed (some rest) = rest

unfoldable pub trimmed_path : List ℕ → List ℕ
unfolding ends_with_slash drop_last
trimmed_path path = if ends_with_slash path && ltb 1 (length path) then drop_last path else path

unfoldable pub basename : List ℕ → List ℕ
unfolding trimmed_path after_slash or_all
basename path = or_all (trimmed_path path) (after_slash (trimmed_path path))

abbrev pub Request : Type 0
Request = ℕ

pub record Wizard (W : Type 0) : Type 0 where
  pub open_now : Bool
  pub page : ℕ
  pub name : List ℕ
  pub name_touched : Bool
  pub creating : Bool
  pub error : List ℕ
  pub selected : Option (List ℕ)
  pub creating_ref : Bool
  pub generation : ℕ
  -- the requests in flight, what was sent, and the calls of `onCreated` and `onClose`
  pub pending : List Request
  pub requests : List (List ℕ × List ℕ)
  pub created : List W
  pub closings : ℕ

unfoldable pub take_request : {A : Type 0} → ℕ → List A → Option A
take_request i [] = none
take_request zero (g ∷ gs) = some g
take_request (suc i) (g ∷ gs) = take_request i gs

unfoldable pub drop_request : {A : Type 0} → ℕ → List A → List A
drop_request i [] = []
drop_request zero (g ∷ gs) = gs
drop_request (suc i) (g ∷ gs) = g ∷ drop_request i gs

-- The answer to a request: the workspace, or the text of the error.
pub data Reply (W : Type 0) : Type 0 where
  made : W → Reply W
  refused : List ℕ → Reply W

module _ {W : Type 0} where
  unfoldable pub close_wizard : Wizard W → Wizard W
  close_wizard s = record s {
    generation = suc s.generation;
    creating_ref = false;
    closings = suc s.closings;
  }

  -- The effect on `[open]`.
  unfoldable pub on_opened : Wizard W → Wizard W
  on_opened s = record s {
    open_now = true;
    page = 1;
    name = [];
    name_touched = false;
    creating_ref = false;
    creating = false;
    error = [];
  }

  unfoldable pub on_shut : Wizard W → Wizard W
  on_shut s = record s {
    open_now = false;
    selected = none;
    generation = suc s.generation;
    creating_ref = false;
  }

  -- The end of `create`, when its request is answered.
  unfoldable pub finish : Request → Wizard W → Wizard W
  finish g s = if g == s.generation then record s { creating_ref = false; creating = false } else s

  unfoldable pub settle : Request → Reply W → Wizard W → Wizard W
  unfolding finish close_wizard
  settle g (made ws) s =
      if g == s.generation
      then finish g (close_wizard (record s { created = ws ∷ s.created }))
      else finish g s
  settle g (refused e) s =
      if g == s.generation then finish g (record s { error = e }) else finish g s

  unfoldable pub reply_to : Option Request → ℕ → Reply W → Wizard W → Wizard W
  unfolding settle
  reply_to none i r s = s
  reply_to (some g) i r s = settle g r (record s { pending = drop_request i s.pending })

pub data Event (W : Type 0) : Type 0 where
  opened shut cancelled : Event W
  picked : List ℕ → Event W
  next_from_picker : Event W
  named : List ℕ → Event W
  touched next back : Event W
  submitted : Event W
  replied : (i : ℕ) → Reply W → Event W

module _ {W : Type 0} (trim : List ℕ → List ℕ) where
  -- The part of `create` behind its guard, up to the request.
  unfoldable pub start : List ℕ → Wizard W → Wizard W
  start path s = record s {
    creating_ref = true;
    creating = true;
    error = [];
    pending = s.generation ∷ s.pending;
    requests = (trim s.name, path) ∷ s.requests;
  }

  unfoldable pub create_at : Option (List ℕ) → Wizard W → Wizard W
  unfolding start
  create_at none s = s
  create_at (some []) s = s
  create_at (some (c ∷ cs)) s = if s.creating_ref then s else start (c ∷ cs) s

  unfoldable pub create : Wizard W → Wizard W
  unfolding create_at
  create s = create_at s.selected s

  unfoldable pub advance : Option (List ℕ) → Wizard W → Wizard W
  unfolding basename
  advance none s = s
  advance (some []) s = s
  advance (some (c ∷ cs)) s = record s {
    page = 2;
    name = if length (trim s.name) == 0 then basename (c ∷ cs) else s.name;
  }

  -- The buttons are there only while the dialog is open, on their page.
  unfoldable pub step : Wizard W → Event W → Wizard W
  step s opened = if s.open_now then s else on_opened s
  step s shut = if s.open_now then on_shut s else s
  step s cancelled = if s.open_now then close_wizard s else s
  step s (picked path) = if s.open_now then record s { selected = some path } else s
  step s next_from_picker = if s.open_now && (s.page == 1) then advance s.selected s else s
  step s (named text) = if s.open_now && (s.page == 2) then record s { name = text } else s
  step s touched = if s.open_now && (s.page == 2) then record s { name_touched = true } else s
  step s next =
      if s.open_now && ((s.page == 2) && not (length (trim s.name) == 0))
      then record s { page = 3 }
      else s
  step s back =
      if s.open_now && (ltb 1 s.page && not s.creating) then record s { page = s.page - 1 } else s
  step s submitted = if s.open_now && ((s.page == 3) && not s.creating) then create s else s
  step s (replied i r) = reply_to (take_request i s.pending) i r s

  unfoldable pub run : Wizard W → List (Event W) → Wizard W
  run s [] = s
  run s (e ∷ es) = run (step s e) es

-- The state when the component is mounted, shut.
abbrev pub mounted : {W : Type 0} → Wizard W
mounted = record {
  open_now = false;
  page = 1;
  name = [];
  name_touched = false;
  creating = false;
  error = [];
  selected = none;
  creating_ref = false;
  generation = 1;
  pending = [];
  requests = [];
  created = [];
  closings = 0;
}
