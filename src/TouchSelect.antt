-- ===== src/TouchSelect.antt =====
-- frontend/src/features/split/terminalTouchSelect.ts: selecting text with a finger. `Gesture` has
-- the variables of `registerTouchSelect`, whether its timeout is pending, the mouse events that it
-- fired and the texts that it copied, latest first. Positions are whole pixels. `trim` and whether
-- the program in the terminal owns the mouse are arguments.
pub mod Scrolling
mod Tests
use oh_my_terminal.Base.{
  ℕ, ◌+◌, ◌-◌, ◌*◌, Option, none, some, Bool, true, false, not, ◌&&◌, List, [], ◌∷◌, if◌then◌else◌,
  ltb, ◌==◌, length,
}

pub record Point : Type 0 where
  pub x : ℕ
  pub y : ℕ

pub data Kind : Type 0 where
  mouse_down mouse_move mouse_up : Kind

pub record MouseEvent : Type 0 where
  pub kind : Kind
  pub at : Point
  pub buttons : ℕ
  pub shift_key : Bool
  pub alt_key : Bool

pub record Gesture : Type 0 where
  pub timer : Bool
  pub selecting : Bool
  pub start : Point
  pub fired : List MouseEvent
  pub copied : List (List ℕ)

abbrev pub distance : ℕ → ℕ → ℕ
distance a b = (a - b) + (b - a)

-- `Math.hypot(…) > MOVE_CANCEL_PX`
unfoldable pub is_far : Point → Point → Bool
is_far p q = ltb 100 (distance p.x q.x * distance p.x q.x + distance p.y q.y * distance p.y q.y)

abbrev pub buttons_of : Kind → ℕ
buttons_of mouse_down = 1
buttons_of mouse_move = 1
buttons_of mouse_up = 0

pub data Event : Type 0 where
  touch_start touch_move : (touches : List Point) → Event
  touch_end : (changed : List Point) (selection : List ℕ) → Event
  touch_cancel long_press : Event

module _ (is_mac owns_mouse : Bool) (trim : List ℕ → List ℕ) where
  unfoldable pub fire_mouse : Kind → Point → Gesture → Gesture
  fire_mouse kind p s = record s {
    fired =
        record {
          kind = kind;
          at = p;
          buttons = buttons_of kind;
          shift_key = owns_mouse && not is_mac;
          alt_key = owns_mouse && is_mac;
        }
        ∷ s.fired;
  }

  unfoldable pub on_touch_start : List Point → Gesture → Gesture
  on_touch_start (t ∷ []) s = record s { start = t; timer = true }
  on_touch_start _ s = s

  -- The timeout of `LONG_PRESS_MS` fires.
  unfoldable pub on_long_press : Gesture → Gesture
  unfolding fire_mouse
  on_long_press s =
      if s.timer
      then fire_mouse mouse_down s.start (record s { timer = false; selecting = true })
      else s

  unfoldable pub on_touch_move : List Point → Gesture → Gesture
  unfolding fire_mouse is_far
  on_touch_move [] s = s
  on_touch_move (t ∷ ts) s =
      if not s.selecting
      then (if is_far t s.start then record s { timer = false } else s)
      else fire_mouse mouse_move t s

  unfoldable pub copy_selection : List ℕ → Gesture → Gesture
  copy_selection text s =
      if length (trim text) == 0 then s else record s { copied = text ∷ s.copied }

  unfoldable pub end_at : List Point → List ℕ → Gesture → Gesture
  unfolding fire_mouse copy_selection
  end_at [] text s = s
  end_at (t ∷ ts) text s = copy_selection text (fire_mouse mouse_up t s)

  unfoldable pub on_touch_end : List Point → List ℕ → Gesture → Gesture
  unfolding end_at
  on_touch_end changed text s =
      if not s.selecting
      then record s { timer = false }
      else end_at changed text (record s { timer = false; selecting = false })

  unfoldable pub on_touch_cancel : Gesture → Gesture
  on_touch_cancel s = record s { timer = false; selecting = false }

  unfoldable pub step : Gesture → Event → Gesture
  step s (touch_start ts) = on_touch_start ts s
  step s (touch_move ts) = on_touch_move ts s
  step s (touch_end ts text) = on_touch_end ts text s
  step s touch_cancel = on_touch_cancel s
  step s long_press = on_long_press s

  unfoldable pub run : Gesture → List Event → Gesture
  run s [] = s
  run s (e ∷ es) = run (step s e) es

abbrev pub at_rest : Gesture
at_rest = record {
  timer = false;
  selecting = false;
  start = record { x = 0; y = 0 };
  fired = [];
  copied = [];
}
