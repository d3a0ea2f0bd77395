-- ===== src/TouchSelect/Tests.antt =====
-- Gestures, and the theorems at them.
use oh_my_terminal.Base.{ℕ, ◌≡◌, true, false, List, [], ◌∷◌, ◌++◌, refl}
use oh_my_terminal.TouchSelect.{
  Point, Event, touch_start, touch_move, long_press, is_far, run, at_rest,
}
use oh_my_terminal.TouchSelect.Scrolling.{swipe-quiet}

abbrev as_is : List ℕ → List ℕ
as_is s = s

abbrev at_point : ℕ → ℕ → Point
at_point a b = record { x = a; y = b }

abbrev small_move : List Event
small_move = touch_move (at_point 103 101 ∷ []) ∷ []

small_move-far : is_far (at_point 100 120) (at_point 100 100) ≡ true
unfolding is_far
small_move-far = refl

swipe-quiet_example :
    let u = run false false as_is at_rest (
      touch_start (at_point 100 100 ∷ [])
      ∷ (small_move ++ touch_move (at_point 100 120 ∷ []) ∷ long_press ∷ [])) in
    (u.fired ≡ []) × (u.copied ≡ [])
unfolding is_far
swipe-quiet_example =
    swipe-quiet false false as_is at_rest (at_point 100 100) (at_point 100 120) small_move
      (long_press ∷ []) refl (refl, tt) small_move-far (refl, tt)
