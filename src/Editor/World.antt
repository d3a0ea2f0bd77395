-- ===== src/Editor/World.antt =====
-- The editor with the server. `file` is the text that the server keeps. The last load is `asked` until
-- the server reads the file for it, and then `served` until the answer comes, with the text that was
-- read; a write is `applied` from when the server has changed the file until its answer comes.
use oh_my_terminal.Base.{ℕ, ◌≡◌, ◌≢◌, String, Option, none, some, Bool, true, false}
use oh_my_terminal.Editor.{
  Editor, load, loaded, load_failed, save, settle, handle_close, type_in, first_render,
}

pub record World : Type 0 where
  pub editor : Editor
  pub file : String
  pub asked : Bool
  pub served : Option String
  pub applied : Bool

-- The effect runs: a load is asked for.
abbrev pub ask : World → World
ask w = record w { editor = load w.editor; asked = true; served = none }

-- The first render and the effect after it.
abbrev pub begin : String → World
begin file =
    ask
      (record { editor = first_render; file = file; asked = false; served = none; applied = false })

-- The last load has no answer yet.
abbrev pub is_pending : Bool → Option String → Bool
is_pending true served = true
is_pending false none = false
is_pending false (some _) = true

-- What may happen while nobody else writes the file.
pub data Step (w : World) : World → Type 0 where
  -- the language changes while no write is in flight
  translates : w.editor.writing ≡ none → Step w (ask w)
  serves : w.asked ≡ true → Step w (record w { asked = false; served = some w.file })
  arrives :
      (text : String)
      → w.served ≡ some text
      → Step w (record w { editor = loaded w.editor.load_id text w.editor; served = none })
  fails :
      (e : String)
      → w.editor.content ≡ none
      → Step w (record w {
        editor = load_failed w.editor.load_id e w.editor;
        asked = false;
        served = none;
      })
  -- the answers to loads before the last
  arrives_late :
      (id : ℕ) (text : String)
      → id ≢ w.editor.load_id
      → Step w (record w { editor = loaded id text w.editor })
  fails_late :
      (id : ℕ) (e : String)
      → id ≢ w.editor.load_id
      → Step w (record w { editor = load_failed id e w.editor })
  types : (text : String) → Step w (record w { editor = type_in text w.editor.content w.editor })
  saves : Step w (record w { editor = save w.editor })
  applies :
      (text : String)
      → w.editor.writing ≡ some text
      → w.applied ≡ false
      → Step w (record w { file = text; applied = true })
  -- a write that is answered well has changed the file, and one that fails has not
  answers :
      (ok : Bool)
      → w.applied ≡ ok
      → Step w (record w { editor = settle ok w.editor.writing w.editor; applied = false })
  closes : (ok : Bool) → Step w (record w { editor = handle_close ok w.editor })

pub data Reached (file : String) : World → Type 0 where
  begins : Reached file (begin file)
  then_one : {w u : World} → Reached file w → Step w u → Reached file u
