-- ===== src/Editor/Saving.antt =====
-- When the text that an editor shows as saved is the file's.
use oh_my_terminal.Base.{◌≡◌, ◌∙◌, sym, ap, String, Option, none, some, false, arith}
use oh_my_terminal.Editor.{is_dirty, dirty}
use oh_my_terminal.Editor.World.{World, Reached}
use oh_my_terminal.Editor.Sound.{is_some, Reached-IsSound}

-- A text that is shown and not marked as unsaved is the file's, while none is written, and a write is
-- in flight exactly while the editor says that it saves.
abbrev pub IsSaved : World → Type 0
IsSaved w =
    ((c : String)
      → w.editor.content ≡ some c
      → dirty w.editor ≡ false
      → w.editor.writing ≡ none
      → c ≡ w.file)
    × (w.editor.saving ≡ is_some w.editor.writing)
    × (w.editor.saving_ref ≡ w.editor.saving)

clean-original :
    (o : Option String) (c original : String)
    → o ≡ some c
    → is_dirty o original ≡ false
    → c ≡ original
unfolding is_dirty
clean-original none c original e d = absurd (cc e)
clean-original (some x) c original e d = ground (arith, e, d)

-- Whatever happens from the first render on, while nobody else writes the file, the language does not
-- change while a write is in flight, and a write that fails has not changed the file: a text that is
-- shown and not marked as unsaved while no write is in flight is the file's, and a write is in flight
-- exactly while the editor says that it saves.
pub Reached-IsSaved : {file : String} {w : World} → Reached file w → IsSaved w
Reached-IsSaved {w} r =
    let v = Reached-IsSound r in
    (
      λ c e d q.
          clean-original w.editor.content c w.editor.original e d ∙ v.5 (ap is_some e) (v.7 q),
      v.1,
      v.0 ∙ sym v.1,
    )
