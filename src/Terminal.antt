-- ===== src/Terminal.antt =====
-- frontend/src/features/split/useTerminal.ts, with terminalConnection.ts, terminalFit.ts and
-- terminalKeys.ts beside it: the terminal of a pane. A text that is typed is a list of code units.
-- `Session` has the states and refs of the hook, the size of xterm's grid and what was sent; an
-- `Event` is a callback. What the browser and xterm measure is an argument, a `Box`.
pub mod Fit
pub mod Composition
pub mod Mouse
pub mod Keys
pub mod Connection
mod Tests
use oh_my_terminal.Base.{
  ℕ, ◌-◌, ◌/◌, String, String-discrete, Option, none, some, List, [], ◌∷◌, ite, Bool, true, false,
  not, ◌&&◌, ◌||◌, if◌then◌else◌, ◌==◌, leb,
}
use Prim.Native.Nat.{max}
use oh_my_terminal.Json.{Json, string, obj, get_field}
use oh_my_terminal.Ws.{type_is}

pub data ConnStatus : Type 0 where
  connecting is_open reconnecting is_closed : ConnStatus

-- `isCleanClose`
unfoldable pub is_clean_close : ℕ → Bool
is_clean_close code = (code == 1000) || (code == 1001)

unfoldable pub is_string : {R : Type 0} → Option (Json R) → Bool
is_string (some (string _)) = true
is_string _ = false

-- `isOutputMsg`
unfoldable pub is_output_msg : {R : Type 0} → Json R → Bool
unfolding is_string type_is
is_output_msg (obj fs) = type_is "output" (get_field fs "type") && is_string (get_field fs "data")
is_output_msg _ = false

-- What `fitFullWidth` reads: the cells' size, once xterm has measured it, in the unit of the other
-- lengths; whether the terminal has a parent; the parent's size and the paddings; and the grid that
-- the addon's own `fit` leaves, if it does not throw.
pub record Box : Type 0 where
  pub cell : Option (ℕ × ℕ)
  pub has_parent : Bool
  pub width : ℕ
  pub height : ℕ
  pub pad_h : ℕ
  pub pad_v : ℕ
  pub addon : Option (ℕ × ℕ)

abbrev pub min_cols : ℕ
min_cols = 2

abbrev pub min_rows : ℕ
min_rows = 1

-- The grid after `f.fit()`, and whether it succeeded.
unfoldable pub fallback : Option (ℕ × ℕ) → ℕ × ℕ → (ℕ × ℕ) × Bool
fallback none grid = (grid, false)
fallback (some g) grid = (g, true)

-- `Math.max(least, Math.floor(avail / cell))`; a negative rest counts as none.
unfoldable pub cells : ℕ → ℕ → ℕ → ℕ
cells least avail cell = max least (avail / cell)

unfoldable pub fit_measured : Box → ℕ → ℕ → ℕ × ℕ → (ℕ × ℕ) × Bool
unfolding fallback cells
fit_measured b cell_w cell_h grid =
    if (cell_w == 0) || (cell_h == 0) then fallback b.addon grid else (
      (cells min_cols (b.width - b.pad_h) cell_w, cells min_rows (b.height - b.pad_v) cell_h),
      true,
    )

unfoldable pub fit_cell : Box → Option (ℕ × ℕ) → ℕ × ℕ → (ℕ × ℕ) × Bool
unfolding fit_measured
fit_cell b none grid = fallback b.addon grid
fit_cell b (some (w, h)) grid =
    if b.has_parent then fit_measured b w h grid else fallback b.addon grid

-- `fitFullWidth`, with the grid before and after it.
unfoldable pub fit_full_width : Box → ℕ × ℕ → (ℕ × ℕ) × Bool
unfolding fit_cell
fit_full_width b grid = fit_cell b b.cell grid

-- `MALFORMED_MOUSE_RE`: ESC `[<`, digits, `;NaN`.
unfoldable pub starts : List ℕ → List ℕ → Bool
starts [] s = true
starts (p ∷ ps) [] = false
starts (p ∷ ps) (c ∷ cs) = (p == c) && starts ps cs

abbrev pub is_digit : ℕ → Bool
is_digit c = leb 48 c && leb c 57

abbrev pub report : List ℕ
report = 27 ∷ 91 ∷ 60 ∷ []

abbrev pub semicolon_nan : List ℕ
semicolon_nan = 59 ∷ 78 ∷ 97 ∷ 78 ∷ []

-- `\d*;NaN`; a digit is no semicolon, so there is nothing to go back to.
unfoldable pub digits_nan : List ℕ → Bool
unfolding starts
digits_nan [] = false
digits_nan (c ∷ cs) =
    let rest = digits_nan cs in if is_digit c then rest else starts semicolon_nan (c ∷ cs)

unfoldable pub some_digits_nan : List ℕ → Bool
unfolding digits_nan
some_digits_nan [] = false
some_digits_nan (c ∷ cs) = is_digit c && digits_nan cs

unfoldable pub malformed_here : List ℕ → Bool
unfolding some_digits_nan
malformed_here (a ∷ b ∷ c ∷ cs) = starts report (a ∷ b ∷ c ∷ []) && some_digits_nan cs
malformed_here _ = false

unfoldable pub is_malformed_mouse : List ℕ → Bool
unfolding malformed_here
is_malformed_mouse [] = false
is_malformed_mouse (c ∷ cs) = malformed_here (c ∷ cs) || is_malformed_mouse cs

pub data Output (R : Type 0) : Type 0 where
  resize : (cols rows : ℕ) → Output R
  input : List ℕ → Output R
  wrote : Json R → Output R
  focus : Output R

pub record Session (R : Type 0) : Type 0 where
  pub status : ConnStatus
  pub composing : Bool
  pub pending_fit : Bool
  -- whether the effect that made the terminal is in force
  pub mounted : Bool
  pub grid : ℕ × ℕ
  pub outputs : List (Output R)

module _ {R : Type 0} where
  abbrev pub put_out : Output R → Session R → Session R
  put_out o s = record s { outputs = o ∷ s.outputs }

  unfoldable pub send_resize : Session R → Session R
  send_resize s = put_out (resize s.grid.0 s.grid.1) s

  unfoldable pub do_fit : Box → Session R → Session R
  unfolding send_resize
  do_fit b s =
      if s.composing
      then record s { pending_fit = true }
      else send_resize (record s { grid = (fit_full_width b s.grid).0 })

  unfoldable pub settle_composition : Box → Session R → Session R
  unfolding do_fit
  settle_composition b s =
      let t = record s { composing = false } in
      if t.pending_fit then do_fit b (record t { pending_fit = false }) else t

  unfoldable pub on_blur : Box → Session R → Session R
  unfolding settle_composition
  on_blur b s = if s.composing then settle_composition b s else s

  unfoldable pub on_open : Box → Session R → Session R
  unfolding do_fit
  on_open b s = put_out focus (do_fit b (record s { status = is_open }))

  unfoldable pub on_close : ℕ → Session R → Session R
  unfolding is_clean_close
  on_close code s = record s { status = if is_clean_close code then is_closed else reconnecting }

  unfoldable pub on_data : List ℕ → Session R → Session R
  unfolding is_malformed_mouse
  on_data data_sent s = if is_malformed_mouse data_sent then s else put_out (input data_sent) s

  -- The effect on `[fontSize, stack]`.
  unfoldable pub restyle : Box → Session R → Session R
  unfolding send_resize
  restyle b s =
      if not s.mounted
      then s
      else if s.composing
      then record s { pending_fit = true }
      else (let fitted = fit_full_width b s.grid in
          if fitted.1
          then send_resize (record s { grid = fitted.0 })
          else record s { grid = fitted.0 })

  unfoldable pub unmount : Session R → Session R
  unmount s = record s { composing = false; pending_fit = false; mounted = false }

pub data Event (R : Type 0) : Type 0 where
  opened : Box → Event R
  received : Json R → Event R
  lost : (code : ℕ) → Event R
  typed : List ℕ → Event R
  composition_started : Event R
  composition_ended blurred observed restyled : Box → Event R
  unmounted : Event R

module _ {R : Type 0} where
  -- What a callback of the terminal does while the effect is in force.
  unfoldable pub react : Event R → Session R → Session R
  react (opened b) s = on_open b s
  react (received m) s = if is_output_msg m then put_out (wrote m) s else s
  react (lost code) s = on_close code s
  react (typed d) s = on_data d s
  react composition_started s = record s { composing = true }
  react (composition_ended b) s = settle_composition b s
  react (blurred b) s = on_blur b s
  react (observed b) s = do_fit b s
  react (restyled b) s = restyle b s
  react unmounted s = unmount s

  -- Afterwards every callback is gone.
  unfoldable pub step : Session R → Event R → Session R
  unfolding react
  step s e = if s.mounted then react e s else s

  unfoldable pub run : Session R → List (Event R) → Session R
  run s [] = s
  run s (e ∷ es) = run (step s e) es

  -- The state when the effect has run, from the grid that xterm starts with.
  unfoldable pub mount : Box → ℕ × ℕ → Session R
  mount b grid = record {
    status = connecting;
    composing = false;
    pending_fit = false;
    mounted = true;
    grid = (fit_full_width b grid).0;
    outputs = [];
  }
