-- ===== src/Clipboard/Tests.antt =====
-- A copy by tmux, and its theorem at it.
use oh_my_terminal.Base.{ℕ, ◌≡◌, ◌↔◌, ◌-◌, Option, none, some, true, List, [], ◌∷◌}
use oh_my_terminal.Clipboard.{Platform, Page, refuses, semicolon, handle_osc}
use oh_my_terminal.Clipboard.Osc.{takes, IsRequest, handle_osc_iff}

-- A page with an input, in a browser that allows the clipboard.
abbrev page : Page
page = record { clipboard = none; areas = (9 ∷ []) ∷ []; selection = none }

abbrev browser : Platform
browser = record { has_clipboard = true; allows = true; exec = refuses }

-- An encoding by one code unit more.
abbrev lower : List ℕ → Option (List ℕ)
lower [] = some []
lower (c ∷ cs) = some ((c - 1) ∷ cs)

handle_osc_iff_example :
    let t = handle_osc browser lower (99 ∷ semicolon ∷ 66 ∷ []) page in
    (t.0 ≡ true)
    × (t.1.areas ≡ page.areas)
    × ((t.1.clipboard ≡ some (65 ∷ []))
        ↔ IsRequest lower (99 ∷ semicolon ∷ 66 ∷ []) (65 ∷ []) × (takes browser ≡ true))
handle_osc_iff_example =
    handle_osc_iff browser lower (65 ∷ []) page (99 ∷ semicolon ∷ 66 ∷ []) (λ e. cc e)
