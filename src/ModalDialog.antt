-- ===== src/ModalDialog.antt =====
-- frontend/src/components/ModalDialog.tsx: the keys and the focus of a dialog. The elements of the
-- dialog that can have the focus are numbered in the order of the document, from zero; `count` is how
-- many there are when a key is pressed. `browser` is where the browser moves the focus by itself,
-- `is_html` whether the element is an `HTMLElement`, and `body` the number of the page's body, which has
-- the focus when the element that had it is gone.
pub mod Trap
mod Tests
use oh_my_terminal.Base.{
  ℕ, zero, suc, Option, none, some, List, [], ◌∷◌, Bool, true, false, ◌==◌, ◌||◌, if◌then◌else◌,
}

-- Where the focus is: on an element of the dialog that is numbered, elsewhere in the dialog, or
-- outside, on an element with this number there.
pub data Place : Type 0 where
  item : (i : ℕ) → Place
  panel : Place
  outside : (element : ℕ) → Place

pub record Dialog : Type 0 where
  pub open_now : Bool
  pub focus : Place
  -- `restoreRef.current`
  pub restore : Option Place
  -- whether the page can be scrolled
  pub scrolls : Bool
  -- the calls of `onClose`
  pub closings : ℕ

is_at : ℕ → Place → Bool
is_at i (item j) = j == i
is_at i panel = false
is_at i (outside _) = false

is_outside : Place → Bool
is_outside (item _) = false
is_outside panel = false
is_outside (outside _) = true

-- What `onKeyDown` does with a Tab: the place that it gives the focus, or none where it leaves the key
-- to the browser.
unfoldable pub trap : Bool → ℕ → Place → Option Place
unfolding is_at is_outside
trap shift zero active = some panel
trap true (suc n) active = if is_at 0 active || is_outside active then some (item n) else none
trap false (suc n) active = if is_at n active || is_outside active then some (item 0) else none

unfoldable pub or_place : Option Place → Place → Place
or_place none p = p
or_place (some q) p = q

first_place : ℕ → Place
first_place zero = panel
first_place (suc n) = item 0

pub data Event : Type 0 where
  -- an element of the dialog that takes the focus when it is mounted, and how many there are
  opened : (autofocus : Option Place) (count : ℕ) → Event
  shut escape : Event
  tab : (shift : Bool) (count : ℕ) → Event
  -- the user puts the focus somewhere
  clicked : Place → Event
  -- the mouse goes down on the overlay itself, or on what is in it
  pressed : (on_overlay : Bool) → Event

unfoldable pub close : Dialog → Dialog
close s = record s { closings = suc s.closings }

unfoldable pub tab_to : (Bool → ℕ → Place → Place) → Bool → ℕ → Place → Place
unfolding or_place
tab_to browser shift count active = or_place (trap shift count active) (browser shift count active)

-- The effect runs after the commit: an element of the dialog with `autoFocus` has the focus by then.
unfoldable pub open_dialog : (Place → Bool) → Option Place → ℕ → Dialog → Dialog
unfolding first_place or_place
open_dialog is_html autofocus count s =
    let active = or_place autofocus s.focus in
    record s {
      open_now = true;
      restore = if is_html active then some active else none;
      scrolls = false;
      focus = first_place count;
    }

-- Where the focus is when the dialog is gone.
unfoldable pub left_over : ℕ → Place → Place
left_over body (item _) = outside body
left_over body panel = outside body
left_over body (outside x) = outside x

-- `focus()` does nothing on what has gone with the dialog.
unfoldable pub give_back : Option Place → Place → Place
give_back none p = p
give_back (some (item _)) p = p
give_back (some panel) p = p
give_back (some (outside x)) p = outside x

-- The cleanup of the effect.
unfoldable pub shut_dialog : ℕ → Dialog → Dialog
unfolding left_over give_back
shut_dialog body s = record s {
  open_now = false;
  scrolls = true;
  focus = give_back s.restore (left_over body s.focus);
}

module _ (browser : Bool → ℕ → Place → Place) (is_html : Place → Bool) (body : ℕ) where
  unfoldable pub step : Dialog → Event → Dialog
  unfolding tab_to open_dialog shut_dialog close
  step s (opened autofocus count) = if s.open_now then s else open_dialog is_html autofocus count s
  step s shut = if s.open_now then shut_dialog body s else s
  step s escape = if s.open_now then close s else s
  step s (tab shift count) = record s {
    focus = if s.open_now then tab_to browser shift count s.focus else browser shift count s.focus;
  }
  step s (clicked p) = record s { focus = p }
  step s (pressed on_overlay) = if s.open_now then (if on_overlay then close s else s) else s

  unfoldable pub run : Dialog → List Event → Dialog
  unfolding step
  run s [] = s
  run s (e ∷ es) = run (step s e) es
