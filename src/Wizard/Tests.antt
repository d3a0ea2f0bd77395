-- ===== src/Wizard/Tests.antt =====
-- Runs of the wizard, and its theorems at them.
use oh_my_terminal.Wizard.Picker
use oh_my_terminal.Wizard.Picker.{FsBrowse, browsed}
use oh_my_terminal.Wizard.Picker.Runs.{run-unopened-IsSound}
use oh_my_terminal.Wizard.Picker.Settling.{KeepsNames, answer, answer-settles}
use oh_my_terminal.Base.{
  ℕ, ◌≡◌, List, [], ◌∷◌, refl, true, false, some, String, String-discrete, subst, ite, arith,
}
use oh_my_terminal.Wizard.{
  Event, made, opened, cancelled, picked, next_from_picker, next, submitted, replied, slash,
  basename, step, run, mounted, create, advance, reply_to, settle, finish, close_wizard, on_opened,
  take_request, drop_request,
}
use oh_my_terminal.Wizard.Requests.{run-mounted-IsSound, cancelled-quiet}

-- No spaces are trimmed.
abbrev as_is : List ℕ → List ℕ
as_is s = s

-- The folder `/a` is chosen and its request is made.
abbrev asked : List (Event ℕ)
asked = opened ∷ picked (slash ∷ 97 ∷ []) ∷ next_from_picker ∷ next ∷ submitted ∷ []

asked-answered : (run as_is (run as_is mounted asked) (replied 0 (made 7) ∷ [])).created ≡ 7 ∷ []
unfolding run step create advance reply_to settle finish close_wizard on_opened take_request
    drop_request basename
asked-answered = refl

asked-open_now : (run as_is (mounted {W = ℕ}) asked).open_now ≡ true
unfolding run step create advance on_opened basename
asked-open_now = refl

cancelled-quiet_example :
    (run as_is (step as_is (run as_is mounted asked) cancelled) (replied 0 (made 7) ∷ [])).created
    ≡ (run as_is mounted asked).created
cancelled-quiet_example =
    cancelled-quiet as_is (run as_is mounted asked) (replied 0 (made 7) ∷ [])
      (run-mounted-IsSound as_is asked) asked-open_now (refl, tt)

-- A server with one folder, which is also the one that it starts with.
abbrev home : FsBrowse
home = record { path = "/home"; parent = some "/"; dirs = "u" ∷ [] }

browse_home : String → Picker.Reply
browse_home path =
    ite (String-discrete path "") (browsed home)
      (ite (String-discrete path "/home") (browsed home) (Picker.refused "none"))

only_home : (path : String) (res : FsBrowse) → browse_home path ≡ browsed res → home ≡ res
unfolding browse_home
only_home path res e = ground arith

home_again : browse_home "/home" ≡ browsed home
unfolding browse_home String-discrete
home_again = refl

browse_home-KeepsNames : KeepsNames browse_home
browse_home-KeepsNames path res e =
    subst (λ r. (again : FsBrowse) × (browse_home r.path ≡ browsed again) × (again.path ≡ r.path))
      (only_home path res e) (home, home_again, refl)

abbrev picking : List Picker.Event
picking = Picker.opened ∷ []

is_active : (Picker.run Picker.unopened picking).active ≡ true
unfolding Picker.run Picker.step Picker.rerun Picker.browse
is_active = refl

answer-settles_example :
    let s = Picker.run Picker.unopened picking in
    (answer browse_home (answer browse_home s)).loading ≡ false
answer-settles_example =
    answer-settles browse_home browse_home-KeepsNames (Picker.run Picker.unopened picking)
      (run-unopened-IsSound picking) is_active
