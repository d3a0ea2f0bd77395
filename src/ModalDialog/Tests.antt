-- ===== src/ModalDialog/Tests.antt =====
-- A dialog with three elements, and the theorems at it.
use oh_my_terminal.Base.{
  ℕ, zero, suc, ◌≡◌, ◌↔◌, List, [], ◌∷◌, none, Bool, true, false, refl, arith, ◌==◌, if◌then◌else◌,
}
use oh_my_terminal.ModalDialog.{
  Place, item, panel, outside, Dialog, Event, escape, tab, clicked, trap, tab_to,
}
use oh_my_terminal.ModalDialog.Trap.{IsFree, IsOrdered, trap-none_iff, tab_to-cycles}

-- A browser that goes from an element to the next or to the one before, and else to the page.
browser : Bool → ℕ → Place → Place
browser false count (item i) = item (suc i)
browser true count (item (suc i)) = item i
browser true count (item zero) = outside 0
browser shift count panel = outside 0
browser shift count (outside x) = outside x

browser-IsOrdered : IsOrdered browser 2
unfolding browser
browser-IsOrdered = (λ i h. refl, λ i h. refl)

trap-none_iff_example : (trap true 3 panel ≡ none) ↔ IsFree true 2 panel
trap-none_iff_example = trap-none_iff true 2 panel

cycled :
    let next = tab_to browser false 3 (item 2) in
    (next ≡ item (if 2 == 2 then 0 else 3))
    × (tab_to browser true 3 next ≡ item 2)
    × (tab_to browser false 3 (outside 7) ≡ item 0)
    × (tab_to browser true 3 (outside 7) ≡ item 2)
cycled = tab_to-cycles browser 2 2 7 browser-IsOrdered (omega arith)

abbrev before : Dialog
before = record {
  open_now = false;
  focus = outside 4;
  restore = none;
  scrolls = true;
  closings = 0;
}

abbrev visit : List Event
visit = tab false 3 ∷ clicked panel ∷ escape ∷ []

all_html : Place → Bool
all_html p = true

-- From the panel, a Tab with Shift leaves the dialog.
escapes : tab_to browser true 3 panel ≡ outside 0
unfolding tab_to trap browser
escapes = refl
