-- ===== src/FilesPanel.antt =====
-- frontend/src/features/split/useFilesResize.ts: the width of the panel of files. The browser gives
-- positions in fractions of a pixel: `unit` is how many of these steps a pixel has, and positions and
-- widths are counted in steps, positions from a point left of every one, since only their differences
-- are read. The texts of the browser's storage are read by `parse_int`, in whole pixels, and written by
-- `print`, from steps; they are the platform's.
pub mod Stored
pub mod Unary
mod Tests
use oh_my_terminal.Base.{
  ℕ, ◌+◌, ◌*◌, ◌-◌, String, Option, none, some, Bool, true, false, List, [], ◌∷◌,
}
use Prim.Native.Nat.{max}

abbrev pub default_width : ℕ
default_width = 320

abbrev pub min_width : ℕ
min_width = 220

abbrev pub resize_step : ℕ
resize_step = 24

-- What `Number.parseInt` gives: no number, a negative one, or another.
pub data Parsed : Type 0 where
  not_a_number negative : Parsed
  value : ℕ → Parsed

module _ (unit : ℕ) where
  -- `clampFilesWidth(a - b)`; below zero it is the least width as well.
  unfoldable pub clamp_difference : ℕ → ℕ → ℕ
  clamp_difference a b = max (min_width * unit) (a - b)

  unfoldable pub width_of : Parsed → ℕ
  unfolding clamp_difference
  width_of not_a_number = default_width * unit
  width_of negative = min_width * unit
  width_of (value n) = clamp_difference (n * unit) 0

pub record Drag : Type 0 where
  pub start_x : ℕ
  pub start_width : ℕ

pub record Panel : Type 0 where
  pub files_width : ℕ
  pub resizing : Bool
  pub drag : Option Drag
  -- what the storage has under `th-files-w`
  pub stored : Option String

pub data Key : Type 0 where
  arrow_left arrow_right home other : Key

pub data Event : Type 0 where
  pointer_down pointer_move pointer_end : (x : ℕ) → Event
  key_down : Key → Event
  double_click : Event

module _ (unit : ℕ) (parse_int : String → Parsed) (print : ℕ → String) where
  -- `storedFilesWidth`
  unfoldable pub stored_width : Option String → ℕ
  unfolding width_of
  stored_width none = default_width * unit
  stored_width (some raw) = width_of unit (parse_int raw)

  unfoldable pub set_width : ℕ → Panel → Panel
  set_width n s = record s { files_width = n; stored = some (print n) }

  unfoldable pub on_pointer_down : ℕ → Panel → Panel
  on_pointer_down x s = record s {
    drag = some (record { start_x = x; start_width = s.files_width });
    resizing = true;
  }

  unfoldable pub on_pointer_move : ℕ → Option Drag → Panel → Panel
  unfolding clamp_difference
  on_pointer_move x none s = s
  on_pointer_move x (some d) s = record s {
    files_width = clamp_difference unit (d.start_width + d.start_x) x;
  }

  unfoldable pub end_resize : ℕ → Option Drag → Panel → Panel
  unfolding clamp_difference set_width
  end_resize x none s = s
  end_resize x (some d) s =
      set_width (clamp_difference unit (d.start_width + d.start_x) x)
        (record s { drag = none; resizing = false })

  unfoldable pub on_key_down : Key → Panel → Panel
  unfolding clamp_difference set_width
  on_key_down arrow_left s =
      set_width (clamp_difference unit (s.files_width + resize_step * unit) 0) s
  on_key_down arrow_right s = set_width (clamp_difference unit s.files_width (resize_step * unit)) s
  on_key_down home s = set_width (default_width * unit) s
  on_key_down other s = s

  unfoldable pub step : Panel → Event → Panel
  step s (pointer_down x) = on_pointer_down x s
  step s (pointer_move x) = on_pointer_move x s.drag s
  step s (pointer_end x) = end_resize x s.drag s
  step s (key_down k) = on_key_down k s
  step s double_click = set_width (default_width * unit) s

  unfoldable pub run : Panel → List Event → Panel
  run s [] = s
  run s (e ∷ es) = run (step s e) es

  -- The first render.
  abbrev pub start : Option String → Panel
  start stored = record {
    files_width = stored_width stored;
    resizing = false;
    drag = none;
    stored = stored;
  }
