-- ===== src/Workspaces/Sessions.antt =====
-- The map of sessions, which the panes look their session up in.
use oh_my_terminal.Base.{
  ◌≡◌, ◌∙◌, ap, String, Option, none, some, List, [], ◌∷◌, ite, String-discrete, arith, refl,
}
use oh_my_terminal.Workspaces.{
  Terminal, Workspace, SessionRef, map_get, map_set, session_ref, terminal_walk, workspace_walk,
  sessions,
}

-- The second one, if there is one.
abbrev pub override : {A : Type 0} → Option A → Option A → Option A
override x none = x
override x (some y) = some y

-- The last terminal with the id, in the order of the sidebar, with the id and path of the workspace.
unfoldable pub last_terminal : Workspace → String → List Terminal → Option SessionRef
last_terminal ws id [] = none
last_terminal ws id (tm ∷ tms) =
    override
      (ite (String-discrete tm.id id)
        (some (record { ws_id = ws.id; tm_id = tm.id; name = tm.name; path = ws.path })) none)
      (last_terminal ws id tms)

unfoldable pub last_session : String → List Workspace → Option SessionRef
unfolding last_terminal
last_session id [] = none
last_session id (ws ∷ wss) = override (last_terminal ws id ws.terminals) (last_session id wss)

override_assoc :
    {A : Type 0} (x y z : Option A) → override (override x y) z ≡ override x (override y z)
override_assoc x y none = refl
override_assoc x y (some z) = refl

map_get-map_set :
    (m : List (String × SessionRef)) (i : String) (x : SessionRef) (id : String)
    → map_get (map_set m i x) id
      ≡ override (map_get m id) (ite (String-discrete i id) (some x) none)
unfolding map_get map_set
map_get-map_set [] i x id = ground arith
map_get-map_set (e ∷ es) i x id = ground (arith, map_get-map_set es i x id)

map_get-terminal_walk :
    (ws : Workspace) (tms : List Terminal) (m : List (String × SessionRef)) (id : String)
    → map_get (terminal_walk ws tms m) id ≡ override (map_get m id) (last_terminal ws id tms)
unfolding terminal_walk last_terminal
map_get-terminal_walk ws [] m id = refl
map_get-terminal_walk ws (tm ∷ tms) m id =
    map_get-terminal_walk ws tms (map_set m tm.id (session_ref ws tm)) id
    ∙ ap (λ x. override x (last_terminal ws id tms))
        (map_get-map_set m tm.id (session_ref ws tm) id)
    ∙ override_assoc (map_get m id) (ite (String-discrete tm.id id) (some (session_ref ws tm)) none)
        (last_terminal ws id tms)

map_get-workspace_walk :
    (wss : List Workspace) (m : List (String × SessionRef)) (id : String)
    → map_get (workspace_walk wss m) id ≡ override (map_get m id) (last_session id wss)
unfolding workspace_walk last_session
map_get-workspace_walk [] m id = refl
map_get-workspace_walk (ws ∷ wss) m id =
    map_get-workspace_walk wss (terminal_walk ws ws.terminals m) id
    ∙ ap (λ x. override x (last_session id wss)) (map_get-terminal_walk ws ws.terminals m id)
    ∙ override_assoc (map_get m id) (last_terminal ws id ws.terminals) (last_session id wss)

override-none : {A : Type 0} (x : Option A) → override none x ≡ x
override-none none = refl
override-none (some x) = refl

-- Looking up an id in `sessions` gives the last terminal with it, in the order of the sidebar, with
-- the id and path of its workspace.
pub map_get-sessions :
    (id : String) (wss : List Workspace) → map_get (sessions wss) id ≡ last_session id wss
unfolding sessions map_get
map_get-sessions id wss = map_get-workspace_walk wss [] id ∙ override-none (last_session id wss)
