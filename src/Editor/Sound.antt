-- ===== src/Editor/Sound.antt =====
-- What stays true of the editor and the server, whatever happens from the first render on.
use oh_my_terminal.Base.{
  ℕ, ◌≡◌, sym, ap, String, Option, none, some, Bool, true, false, arith, refl, if_intro, subst,
  Bool-cases, inl, inr, ◌≢◌, ◌||◌, ◌&&◌, not, suc,
}
use oh_my_terminal.Editor.{
  Editor, dirty, load, loaded, load_failed, save_content, save, settle, handle_close, type_in,
}
use oh_my_terminal.Editor.World.{
  World, Step, translates, serves, arrives, fails, arrives_late, fails_late, types, saves, applies,
  answers, closes, Reached, begins, then_one, ask, begin,
}

abbrev pub is_some : Option String → Bool
is_some none = false
is_some (some _) = true

-- The flags of a save are set exactly while a write is in flight. While no text is shown, none is
-- written, and once one is shown, the last load is done with. A text that was read is still the
-- file's, the text that the shown one is compared with is the file's until a write is applied, and then
-- the file has the text that is written.
abbrev pub IsSound : World → Type 0
IsSound w =
    (w.editor.saving_ref ≡ is_some w.editor.writing)
    × (w.editor.saving ≡ is_some w.editor.writing)
    × (is_some w.editor.content ≡ false → w.editor.writing ≡ none)
    × (is_some w.editor.content ≡ true → (w.asked ≡ false) × (w.served ≡ none))
    × ((text : String) → w.served ≡ some text → text ≡ w.file)
    × (is_some w.editor.content ≡ true → w.applied ≡ false → w.editor.original ≡ w.file)
    × ((text : String) → w.editor.writing ≡ some text → w.applied ≡ true → w.file ≡ text)
    × (w.editor.writing ≡ none → w.applied ≡ false)
    × ((text : String) → w.served ≡ some text → w.asked ≡ false)

-- The world with another editor.
abbrev with_editor : World → Editor → World
with_editor w s = record w { editor = s }

loaded_now :
    (text : String) (s : Editor)
    → loaded s.load_id text s ≡ record s { content = some text; original = text; loading = false }
unfolding loaded
loaded_now text s = ground arith

load_failed_now :
    (e : String) (s : Editor) → load_failed s.load_id e s ≡ record s { error = e; loading = false }
unfolding load_failed
load_failed_now e s = ground arith

loaded_late : (id : ℕ) (text : String) (s : Editor) → id ≢ s.load_id → loaded id text s ≡ s
unfolding loaded
loaded_late id text s n = ground arith

load_failed_late : (id : ℕ) (e : String) (s : Editor) → id ≢ s.load_id → load_failed id e s ≡ s
unfolding load_failed
load_failed_late id e s n = ground arith

module _ (w : World) (v : IsSound w) where
  asks-IsSound : w.editor.writing ≡ none → IsSound (ask w)
  unfolding load
  asks-IsSound e = (
    v.0,
    v.1,
    λ _. e,
    λ c. absurd (cc c),
    λ t q. absurd (cc q),
    λ c. absurd (cc c),
    v.6,
    v.7,
    λ t q. absurd (cc q),
  )

  serves-IsSound : w.asked ≡ true → IsSound (record w { asked = false; served = some w.file })
  serves-IsSound e =
      (v.0, v.1, v.2, λ c. absurd (cc ((v.3 c).0, e)), λ t q. cc q, v.5, v.6, v.7, λ t q. refl)

  arrives-IsSound :
      (text : String)
      → w.served ≡ some text
      → IsSound (record w { editor = loaded w.editor.load_id text w.editor; served = none })
  arrives-IsSound text e =
      subst (λ s. IsSound (record w { editor = s; served = none })) (sym (loaded_now text w.editor))
        (
          v.0,
          v.1,
          λ c. absurd (cc c),
          λ _. (v.8 text e, refl),
          λ t q. absurd (cc q),
          λ _ _. v.4 text e,
          v.6,
          v.7,
          λ t q. absurd (cc q),
        )

  fails-IsSound :
      (x : String)
      → IsSound (record w {
        editor = load_failed w.editor.load_id x w.editor;
        asked = false;
        served = none;
      })
  fails-IsSound x =
      subst (λ s. IsSound (record w { editor = s; asked = false; served = none }))
        (sym (load_failed_now x w.editor))
        (
          v.0,
          v.1,
          v.2,
          λ c. (refl, refl),
          λ t q. absurd (cc q),
          v.5,
          v.6,
          v.7,
          λ t q. absurd (cc q),
        )

  types-IsSound :
      (text : String) (o : Option String)
      → w.editor.content ≡ o
      → IsSound (with_editor w (type_in text o w.editor))
  unfolding type_in
  types-IsSound text none e = v
  types-IsSound text (some c) e =
      let shown : is_some w.editor.content ≡ true = ap is_some e in
      (v.0, v.1, λ x. absurd (cc x), λ _. v.3 shown, v.4, λ _. v.5 shown, v.6, v.7, v.8)

  saves-IsSound :
      (o : Option String) → w.editor.content ≡ o → IsSound (with_editor w (save_content o w.editor))
  unfolding save_content
  saves-IsSound none e = v
  saves-IsSound (some c) e =
      if_intro (λ s. IsSound (with_editor w s)) (w.editor.saving_ref || not (dirty w.editor))
        w.editor (record w.editor { saving_ref = true; saving = true; writing = some c }) (λ _. v)
        (λ free.
          let still : w.applied ≡ false =
            v.7 (unwritten w.editor.writing (ground (arith, free, v.0))) in
          (
            refl,
            refl,
            λ x. absurd (cc (x, e)),
            v.3,
            v.4,
            v.5,
            λ t q a. absurd (cc (a, still)),
            λ q. still,
            v.8,
          ))
    where
      unwritten : (p : Option String) → is_some p ≡ false → p ≡ none
      unwritten none q = refl
      unwritten (some x) q = absurd (cc q)

  shown_while : (text : String) → w.editor.writing ≡ some text → is_some w.editor.content ≡ true
  shown_while text e = elim (Bool-cases (is_some w.editor.content)) [
    | inl c ↦ c
    | inr c ↦ absurd (cc (v.2 c, e))
  ]

  applies-IsSound :
      (text : String)
      → w.editor.writing ≡ some text
      → IsSound (record w { file = text; applied = true })
  applies-IsSound text e =
      let gone = (v.3 (shown_while text e)).1 in
      (
        v.0,
        v.1,
        v.2,
        v.3,
        λ t q. absurd (cc (q, gone)),
        λ _ a. absurd (cc a),
        λ t q _. cc (q, e),
        λ q. absurd (cc (q, e)),
        v.8,
      )

  answers-IsSound :
      (ok : Bool) (o : Option String)
      → w.editor.writing ≡ o
      → w.applied ≡ ok
      → IsSound (record w { editor = settle ok o w.editor; applied = false })
  unfolding settle
  answers-IsSound ok none e a =
      (v.0, v.1, v.2, v.3, v.4, λ c _. v.5 c (v.7 e), λ t q b. absurd (cc b), λ _. refl, v.8)
  answers-IsSound true (some c) e a = (
    refl,
    refl,
    λ _. refl,
    v.3,
    v.4,
    λ _ _. sym (v.6 c e a),
    λ t q b. absurd (cc b),
    λ _. refl,
    v.8,
  )
  answers-IsSound false (some c) e a =
      (refl, refl, λ _. refl, v.3, v.4, λ x _. v.5 x a, λ t q b. absurd (cc b), λ _. refl, v.8)

  closes-IsSound : (ok : Bool) → IsSound (with_editor w (handle_close ok w.editor))
  unfolding handle_close
  closes-IsSound ok =
      if_intro (λ s. IsSound (with_editor w s)) (dirty w.editor && not ok) w.editor
        (record w.editor { closings = suc w.editor.closings }) (λ _. v) (λ _. v)

Step-IsSound : {w u : World} → IsSound w → Step w u → IsSound u
unfolding save
Step-IsSound {w} v (translates e) = asks-IsSound w v e
Step-IsSound {w} v (serves e) = serves-IsSound w v e
Step-IsSound {w} v (arrives text e) = arrives-IsSound w v text e
Step-IsSound {w} v (fails x e) = fails-IsSound w v x
Step-IsSound {w} v (arrives_late id text n) =
    subst (λ s. IsSound (with_editor w s)) (sym (loaded_late id text w.editor n)) v
Step-IsSound {w} v (fails_late id x n) =
    subst (λ s. IsSound (with_editor w s)) (sym (load_failed_late id x w.editor n)) v
Step-IsSound {w} v (types text) = types-IsSound w v text w.editor.content refl
Step-IsSound {w} v saves = saves-IsSound w v w.editor.content refl
Step-IsSound {w} v (applies text e a) = applies-IsSound w v text e
Step-IsSound {w} v (answers ok a) = answers-IsSound w v ok w.editor.writing refl a
Step-IsSound {w} v (closes ok) = closes-IsSound w v ok

begin-IsSound : (file : String) → IsSound (begin file)
unfolding load
begin-IsSound file = (
  refl,
  refl,
  λ _. refl,
  λ c. absurd (cc c),
  λ t q. absurd (cc q),
  λ c. absurd (cc c),
  λ t q. absurd (cc q),
  λ _. refl,
  λ t q. absurd (cc q),
)

pub Reached-IsSound : {file : String} {w : World} → Reached file w → IsSound w
Reached-IsSound {file} begins = begin-IsSound file
Reached-IsSound (then_one r x) = Step-IsSound (Reached-IsSound r) x
