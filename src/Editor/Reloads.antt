-- ===== src/Editor/Reloads.antt =====
-- A change of the language loads the file again.
use oh_my_terminal.Base.{
  ℕ, suc, ◌≡◌, ◌≢◌, ◌∙◌, ap, String, String-discrete, Option, none, some, Bool, true, false, List,
  [], ◌∷◌, All, arith, refl, ite,
}
use oh_my_terminal.Editor.{
  Editor, is_dirty, dirty, load, loaded, load_failed, save_content, save, settle, handle_close,
  Event, mounts, translates, saves, loads, load_fails, types, answers, closes, type_in, step, run,
  wait, area, alert, wait_or_area, shown,
}

-- Neither another load begins nor this one is answered.
abbrev pub IsBefore : ℕ → Event → Type 0
IsBefore id mounts = ⊥
IsBefore id translates = ⊥
IsBefore id (loads i _) = i ≢ id
IsBefore id (load_fails i _) = i ≢ id
IsBefore id saves = Unit
IsBefore id (types _) = Unit
IsBefore id (answers _) = Unit
IsBefore id (closes _) = Unit

abbrev IsWaiting : ℕ → Editor → Type 0
IsWaiting id s = (s.content ≡ none) × (s.loading ≡ true) × (s.error ≡ "") × (s.load_id ≡ id)

save_content-IsWaiting :
    (id : ℕ) (s : Editor) (o : Option String)
    → o ≡ none
    → IsWaiting id s
    → IsWaiting id (save_content o s)
unfolding save_content
save_content-IsWaiting id s none e v = v
save_content-IsWaiting id s (some c) e v = absurd (cc e)

type_in-IsWaiting :
    (id : ℕ) (text : String) (s : Editor) (o : Option String)
    → o ≡ none
    → IsWaiting id s
    → IsWaiting id (type_in text o s)
unfolding type_in
type_in-IsWaiting id text s none e v = v
type_in-IsWaiting id text s (some c) e v = absurd (cc e)

settle-IsWaiting :
    (id : ℕ) (ok : Bool) (s : Editor) (o : Option String)
    → IsWaiting id s
    → IsWaiting id (settle ok o s)
unfolding settle
settle-IsWaiting id ok s none v = v
settle-IsWaiting id true s (some c) v = v
settle-IsWaiting id false s (some c) v = v

step-IsWaiting :
    (id : ℕ) (s : Editor) (e : Event) → IsBefore id e → IsWaiting id s → IsWaiting id (step s e)
unfolding step loaded load_failed save handle_close
step-IsWaiting id s mounts h v = absurd h
step-IsWaiting id s translates h v = absurd h
step-IsWaiting id s saves h v = save_content-IsWaiting id s s.content v.0 v
step-IsWaiting id s (loads i text) h v = ground arith
step-IsWaiting id s (load_fails i x) h v = ground arith
step-IsWaiting id s (types text) h v = type_in-IsWaiting id text s s.content v.0 v
step-IsWaiting id s (answers ok) h v = settle-IsWaiting id ok s s.writing v
step-IsWaiting id s (closes ok) h v = ground arith

run-IsWaiting :
    (id : ℕ) (es : List Event) (s : Editor)
    → All (IsBefore id) es
    → IsWaiting id s
    → IsWaiting id (run s es)
unfolding run
run-IsWaiting id [] s h v = v
run-IsWaiting id (e ∷ es) s h v = run-IsWaiting id es (step s e) h.1 (step-IsWaiting id s e h.0 v)

translates-IsWaiting : (s : Editor) → IsWaiting (suc s.load_id) (step s translates)
unfolding step load
translates-IsWaiting s = (refl, refl, refl, refl)

shown_now :
    (s : Editor) (b : Bool) (o : Option String)
    → s.error ≡ ""
    → s.loading ≡ b
    → s.content ≡ o
    → shown s ≡ wait_or_area b o
unfolding shown String-discrete
shown_now s b o e l c =
    ap (λ x. ite (String-discrete x "") (wait_or_area s.loading s.content) (alert x)) e
    ∙ ap (λ x. wait_or_area x s.content) l
    ∙ ap (wait_or_area b) c

closes_freely : (s : Editor) → s.content ≡ none → (step s (closes false)).closings ≡ suc s.closings
unfolding step handle_close is_dirty
closes_freely s e = ground (arith, e)

arrives :
    (id : ℕ) (text : String) (s : Editor)
    → IsWaiting id s
    → let u = step s (loads id text) in
      (u.error ≡ "") × (u.loading ≡ false) × (u.content ≡ some text) × (dirty u ≡ false)
unfolding step loaded is_dirty
arrives id text s v = ground arith

-- After a change of the language, whatever happens before the file is loaded again: what was typed is
-- gone, unsaved changes and all, the editor waits, and it closes without a question; and once the
-- answer comes, the text area shows the text of the answer, as saved.
pub translates-drops :
    (s : Editor) (es : List Event) (text : String)
    → All (IsBefore (suc s.load_id)) es
    → let t = run (step s translates) es in
      let u = step t (loads (suc s.load_id) text) in
      (t.content ≡ none)
      × (shown t ≡ wait)
      × ((step t (closes false)).closings ≡ suc t.closings)
      × (shown u ≡ area text)
      × (dirty u ≡ false)
unfolding wait_or_area
translates-drops s es text h =
    let id = suc s.load_id in
    let t = run (step s translates) es in
    let v = run-IsWaiting id es (step s translates) h (translates-IsWaiting s) in
    let (error, loading, content, clean) = arrives id text t v in
    (
      v.0,
      shown_now t true none v.2 v.1 v.0,
      closes_freely t v.0,
      shown_now (step t (loads id text)) false (some text) error loading content,
      clean,
    )
