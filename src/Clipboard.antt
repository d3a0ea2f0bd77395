-- ===== src/Clipboard.antt =====
-- frontend/src/features/split/terminalClipboard.ts, and `copyText` in
-- frontend/src/features/split/terminalTouchSelect.ts: how the client copies a text. What the browser
-- offers and allows is an argument, and so are `atob` with the `TextDecoder` behind it: none is what
-- throws. A text is a list of code units. `areas` are the textareas at the end of the body, the last
-- one first, and `clipboard` is the text that the clipboard was given last.
pub mod Osc
mod Tests
use oh_my_terminal.Base.{
  ℕ, Option, none, some, Bool, true, false, List, [], ◌∷◌, if◌then◌else◌, ◌==◌, ◌&&◌,
}

-- What `document.execCommand("copy")` does.
pub data ExecCommand : Type 0 where
  copies refuses throws : ExecCommand

pub record Platform : Type 0 where
  -- `navigator.clipboard` is there
  pub has_clipboard : Bool
  -- it takes the text
  pub allows : Bool
  pub exec : ExecCommand

pub record Page : Type 0 where
  pub clipboard : Option (List ℕ)
  pub areas : List (List ℕ)
  -- the text that is selected
  pub selection : Option (List ℕ)

unfoldable pub write_text : List ℕ → Page → Page
write_text text s = record s { clipboard = some text }

unfoldable pub append_area : List ℕ → Page → Page
append_area text s = record s { areas = text ∷ s.areas }

first_area : List (List ℕ) → Option (List ℕ)
first_area [] = none
first_area (text ∷ older) = some text

-- `textarea.select()`, of the last one
unfoldable pub select_area : Page → Page
unfolding first_area
select_area s = record s { selection = first_area s.areas }

drop_area : List (List ℕ) → List (List ℕ)
drop_area [] = []
drop_area (text ∷ older) = older

-- `textarea.remove()`
unfoldable pub remove_area : Page → Page
unfolding drop_area
remove_area s = record s { areas = drop_area s.areas; selection = none }

copied : Option (List ℕ) → Page → Page
copied none s = s
copied (some text) s = write_text text s

unfoldable pub exec_copy : ExecCommand → Page → Page
unfolding copied
exec_copy copies s = copied s.selection s
exec_copy refuses s = s
exec_copy throws s = s

-- What `ok` is in `copyText` after the command.
unfoldable pub succeeds : ExecCommand → Bool
succeeds copies = true
succeeds refuses = false
succeeds throws = false

unfoldable pub copy_by_area : ExecCommand → List ℕ → Page → Page
unfolding append_area select_area exec_copy remove_area
copy_by_area e text s = remove_area (exec_copy e (select_area (append_area text s)))

-- `copyText`
unfoldable pub copy_text : Platform → List ℕ → Page → Bool × Page
unfolding write_text copy_by_area succeeds
copy_text p text s =
    if p.has_clipboard && p.allows
    then (true, write_text text s)
    else (succeeds p.exec, copy_by_area p.exec text s)

abbrev pub semicolon : ℕ
semicolon = 59

abbrev pub question_mark : ℕ
question_mark = 63

-- What follows the first semicolon.
unfoldable pub payload_of : List ℕ → Option (List ℕ)
payload_of [] = none
payload_of (c ∷ cs) = if c == semicolon then some cs else payload_of cs

unfoldable pub is_query : List ℕ → Bool
is_query [] = false
is_query (c ∷ []) = c == question_mark
is_query (c ∷ d ∷ cs) = false

-- What throws is caught, and nothing is tried after it.
unfoldable pub write_decoded : Platform → Option (List ℕ) → Page → Page
unfolding write_text copy_by_area
write_decoded p none s = s
write_decoded p (some text) s =
    if p.has_clipboard
    then (if p.allows then write_text text s else s)
    else copy_by_area p.exec text s

unfoldable pub handle_payload :
    Platform → (List ℕ → Option (List ℕ)) → Option (List ℕ) → Page → Page
unfolding is_query write_decoded
handle_payload p decode none s = s
handle_payload p decode (some payload) s =
    if is_query payload then s else write_decoded p (decode payload) s

-- The handler that `registerTerminalClipboard` registers.
unfoldable pub handle_osc : Platform → (List ℕ → Option (List ℕ)) → List ℕ → Page → Bool × Page
unfolding payload_of handle_payload
handle_osc p decode message s = (true, handle_payload p decode (payload_of message) s)
