-- ===== src/Login.antt =====
-- frontend/src/features/auth/LoginPage.tsx: the form. `requests` are the passwords that were sent,
-- `in_flight` counts the requests without an answer, and `logins` the calls of `onLogin`.
pub mod Submits
mod Tests
use oh_my_terminal.Base.{
  ℕ, zero, suc, String, String-discrete, List, [], ◌∷◌, Bool, true, false, ◌||◌, ite, if◌then◌else◌,
}

pub record LoginState : Type 0 where
  pub password : String
  pub busy : Bool
  pub failed : Bool
  pub in_flight : ℕ
  pub requests : List String
  pub logins : ℕ

pub data Event : Type 0 where
  typed : (value : String) → Event
  submitted : Event
  -- the answer to a request
  answered : (ok : Bool) → Event

abbrev pub opened : LoginState
opened = record {
  password = "";
  busy = false;
  failed = false;
  in_flight = 0;
  requests = [];
  logins = 0;
}

unfoldable pub is_empty : String → Bool
is_empty s = ite (String-discrete s "") true false

unfoldable pub submit : LoginState → LoginState
unfolding is_empty
submit s = if s.busy || is_empty s.password then s else record s {
  busy = true;
  failed = false;
  in_flight = suc s.in_flight;
  requests = s.password ∷ s.requests;
}

unfoldable pub conclude : Bool → LoginState → LoginState
conclude true s = record s { logins = suc s.logins }
conclude false s = record s { failed = true; busy = false }

-- Without a request in flight there is no answer.
settle_from : ℕ → Bool → LoginState → LoginState
unfolding conclude
settle_from zero ok s = s
settle_from (suc n) ok s = conclude ok (record s { in_flight = n })

unfoldable pub settle : Bool → LoginState → LoginState
unfolding settle_from
settle ok s = settle_from s.in_flight ok s

unfoldable pub handle : LoginState → Event → LoginState
unfolding submit settle
handle s (typed value) = record s { password = value }
handle s submitted = submit s
handle s (answered ok) = settle ok s

unfoldable pub run : LoginState → List Event → LoginState
unfolding handle
run s [] = s
run s (e ∷ es) = run (handle s e) es
