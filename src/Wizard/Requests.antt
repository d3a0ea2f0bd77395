-- ===== src/Wizard/Requests.antt =====
-- The requests of the wizard: one at a time, and none counts once the dialog is closed.
use oh_my_terminal.Base.{
  ℕ, zero, suc, ◌+◌, ◌≤◌, ◌<◌, ◌≡◌, ◌∙◌, Option, none, some, List, [], ◌∷◌, Bool, true, false,
  if◌then◌else◌, ◌==◌, not, ◌&&◌, ltb, length, arith, refl, if_intro, All,
}
use oh_my_terminal.Wizard.{
  Wizard, Request, take_request, drop_request, Reply, made, refused, close_wizard, on_opened,
  on_shut, finish, settle, reply_to, Event, opened, shut, cancelled, picked, next_from_picker,
  named, touched, next, back, submitted, replied, start, create_at, create, advance, step, run,
  mounted,
}

-- How many requests in flight have the generation.
unfoldable pub count_of : ℕ → List Request → ℕ
count_of j [] = 0
count_of j (g ∷ gs) = (if g == j then 1 else 0) + count_of j gs

pub count_of-drop_request :
    (i g j : ℕ) (gs : List Request)
    → take_request i gs ≡ some g
    → count_of j (drop_request i gs) + (if g == j then 1 else 0) ≡ count_of j gs
unfolding count_of take_request drop_request
count_of-drop_request zero g j [] e = absurd (cc)
count_of-drop_request (suc i) g j [] e = absurd (cc)
count_of-drop_request zero g j (x ∷ gs) e = ground arith
count_of-drop_request (suc i) g j (x ∷ gs) e = ground (arith, count_of-drop_request i g j gs)

-- What holds of the flag, the generation and the requests in flight.
pub record Core (open_now creating_ref : Bool) (generation : ℕ) (pending : List Request)
    : Type 0 where
  pub past : (g : ℕ) → generation < g → count_of g pending ≡ 0
  pub one : count_of generation pending ≤ (if creating_ref then 1 else 0)
  pub none_shut : open_now ≡ false → count_of generation pending ≡ 0

abbrev pub IsSound : {W : Type 0} → Wizard W → Type 0
IsSound s = Core s.open_now s.creating_ref s.generation s.pending

module _ {o c : Bool} {n : ℕ} {gs : List Request} (k : Core o c n gs) where
  -- A new generation has no request in flight.
  Core-suc : (o' c' : Bool) → Core o' c' (suc n) gs
  Core-suc o' c' = record {
    past = λ g l. k.past g (omega arith);
    one = omega (arith, k.past (suc n) (omega arith));
    none_shut = λ _. k.past (suc n) (omega arith);
  }

  Core-drop : (i g : ℕ) → take_request i gs ≡ some g → Core o c n (drop_request i gs)
  Core-drop i g e = record {
    past = λ j l. omega (arith, count_of-drop_request i g j gs e, k.past j l);
    one = omega (arith, count_of-drop_request i g n gs e, k.one);
    none_shut = λ h. omega (arith, count_of-drop_request i g n gs e, k.none_shut h);
  }

  -- The answer to the current request ends it.
  Core-finish :
      (i g : ℕ) → take_request i gs ≡ some g → (g == n) ≡ true → Core o false n (drop_request i gs)
  Core-finish i g e h =
      let d = Core-drop i g e in
      let ends : count_of n (drop_request i gs) ≡ 0 =
        ground (arith, count_of-drop_request i g n gs e, k.one) in
      record { past = d.past; one = omega arith; none_shut = λ _. ends }

  Core-start : o ≡ true → c ≡ false → Core o true n (n ∷ gs)
  unfolding count_of
  Core-start p q = record {
    past = λ g l. ground (arith, k.past g l);
    one = ground (arith, k.one);
    none_shut = λ h. absurd (cc);
  }

not_both : (g n : ℕ) → (g == n) ≡ true → ¬ ((g == suc n) ≡ true)
not_both g n e e' = ground arith

module _ {W : Type 0} (s : Wizard W) (k : IsSound s) where
  reply_to-IsSound :
      (o : Option Request) (i : ℕ) (r : Reply W)
      → take_request i s.pending ≡ o
      → IsSound (reply_to o i r s)
  unfolding reply_to settle finish close_wizard
  reply_to-IsSound none i r e = k
  reply_to-IsSound (some g) i (made ws) e =
      if_intro IsSound (g == s.generation) _ _
        (λ h.
          let d = Core-suc (Core-drop k i g e) s.open_now false in
          if_intro IsSound (g == suc s.generation) _ _ (λ h'. absurd (not_both g s.generation h h'))
            (λ _. d))
        (λ h. if_intro IsSound (g == s.generation) _ _ (λ h'. absurd (cc)) (λ _. Core-drop k i g e))
  reply_to-IsSound (some g) i (refused x) e =
      if_intro IsSound (g == s.generation) _ _
        (λ h.
          if_intro IsSound (g == s.generation) _ _ (λ _. Core-finish k i g e h) (λ h'. absurd (cc)))
        (λ h. if_intro IsSound (g == s.generation) _ _ (λ h'. absurd (cc)) (λ _. Core-drop k i g e))

module _ {W : Type 0} (trim : List ℕ → List ℕ) (s : Wizard W) (k : IsSound s) where
  create_at-IsSound : (o : Option (List ℕ)) → s.open_now ≡ true → IsSound (create_at trim o s)
  unfolding create_at start
  create_at-IsSound none p = k
  create_at-IsSound (some []) p = k
  create_at-IsSound (some (c ∷ cs)) p =
      if_intro IsSound s.creating_ref s _ (λ _. k) (λ h. Core-start k p h)

  advance-IsSound : (o : Option (List ℕ)) → IsSound (advance trim o s)
  unfolding advance
  advance-IsSound none = k
  advance-IsSound (some []) = k
  advance-IsSound (some (c ∷ cs)) = k

  on_opened-IsSound : s.open_now ≡ false → IsSound (on_opened s)
  unfolding on_opened
  on_opened-IsSound p = record {
    past = k.past;
    one = omega (arith, k.none_shut p);
    none_shut = λ e. absurd (cc);
  }

  step-IsSound : (e : Event W) → IsSound (step trim s e)
  unfolding step on_shut close_wizard create
  step-IsSound opened = if_intro IsSound s.open_now s _ (λ _. k) (λ p. on_opened-IsSound p)
  step-IsSound shut = if_intro IsSound s.open_now _ s (λ _. Core-suc k false false) (λ _. k)
  step-IsSound cancelled =
      if_intro IsSound s.open_now _ s (λ _. Core-suc k s.open_now false) (λ _. k)
  step-IsSound (picked path) = if_intro IsSound s.open_now _ s (λ _. k) (λ _. k)
  step-IsSound next_from_picker =
      if_intro IsSound (s.open_now && (s.page == 1)) _ s (λ _. advance-IsSound s.selected) (λ _. k)
  step-IsSound (named text) = if_intro IsSound (s.open_now && (s.page == 2)) _ s (λ _. k) (λ _. k)
  step-IsSound touched = if_intro IsSound (s.open_now && (s.page == 2)) _ s (λ _. k) (λ _. k)
  step-IsSound next =
      if_intro IsSound (s.open_now && ((s.page == 2) && not (length (trim s.name) == 0))) _ s
        (λ _. k) (λ _. k)
  step-IsSound back =
      if_intro IsSound (s.open_now && (ltb 1 s.page && not s.creating)) _ s (λ _. k) (λ _. k)
  step-IsSound submitted =
      if_intro IsSound (s.open_now && ((s.page == 3) && not s.creating)) _ s
        (λ p. create_at-IsSound s.selected (ground arith)) (λ _. k)
  step-IsSound (replied i r) = reply_to-IsSound s k (take_request i s.pending) i r refl

pub mounted-IsSound : (W : Type 0) → IsSound (mounted {W = W})
unfolding count_of
mounted-IsSound W = record { past = λ g l. refl; one = omega arith; none_shut = λ _. refl }

module _ {W : Type 0} (trim : List ℕ → List ℕ) where
  pub run-IsSound : (s : Wizard W) (es : List (Event W)) → IsSound s → IsSound (run trim s es)
  unfolding run
  run-IsSound s [] k = k
  run-IsSound s (e ∷ es) k = run-IsSound (step trim s e) es (step-IsSound trim s k e)

  -- Whatever happens from the mount on: at most one request in flight has the present generation, and
  -- only while a request is being made; none has it while the dialog is shut, and none has a later
  -- one.
  pub run-mounted-IsSound : (es : List (Event W)) → IsSound (run trim mounted es)
  run-mounted-IsSound es = run-IsSound mounted es (mounted-IsSound W)

-- No request of the present generation is in flight.
abbrev pub IsIdle : {W : Type 0} → Wizard W → Type 0
IsIdle s = (g : ℕ) → s.generation ≤ g → count_of g s.pending ≡ 0

abbrev pub is_submitted : {W : Type 0} → Event W → Bool
is_submitted submitted = true
is_submitted _ = false

-- No workspace was made known.
abbrev Quiet : {W : Type 0} → Wizard W → Wizard W → Type 0
Quiet s t = IsIdle t × (t.created ≡ s.created)

module _ {W : Type 0} (s : Wizard W) (idle : IsIdle s) where
  settle-Quiet :
      (i g : ℕ) (r : Reply W)
      → (g == s.generation) ≡ false
      → ((j : ℕ) → s.generation ≤ j → count_of j (drop_request i s.pending) ≡ 0)
      → Quiet s (settle g r (record s { pending = drop_request i s.pending }))
  unfolding settle finish
  settle-Quiet i g (made ws) stale rest = rw stale (rest, refl)
  settle-Quiet i g (refused x) stale rest = rw stale (rest, refl)

  reply_to-Quiet :
      (o : Option Request) (i : ℕ) (r : Reply W)
      → take_request i s.pending ≡ o
      → Quiet s (reply_to o i r s)
  unfolding reply_to
  reply_to-Quiet none i r e = (idle, refl)
  reply_to-Quiet (some g) i r e =
      let stale : (g == s.generation) ≡ false =
        ground (arith, idle g, count_of-drop_request i g g s.pending e) in
      let rest : (j : ℕ) → s.generation ≤ j → count_of j (drop_request i s.pending) ≡ 0 =
        λ j l. omega (arith, idle j l, count_of-drop_request i g j s.pending e) in
      settle-Quiet i g r stale rest

  advance-Quiet : (trim : List ℕ → List ℕ) (o : Option (List ℕ)) → Quiet s (advance trim o s)
  unfolding advance
  advance-Quiet trim none = (idle, refl)
  advance-Quiet trim (some []) = (idle, refl)
  advance-Quiet trim (some (c ∷ cs)) = (idle, refl)

  step-Quiet :
      (trim : List ℕ → List ℕ) (e : Event W) → is_submitted e ≡ false → Quiet s (step trim s e)
  unfolding step on_opened on_shut close_wizard
  step-Quiet trim opened n =
      if_intro (Quiet s) s.open_now s _ (λ _. (idle, refl)) (λ _. (idle, refl))
  step-Quiet trim shut n =
      if_intro (Quiet s) s.open_now _ s (λ _. (λ g l. idle g (omega arith), refl))
        (λ _. (idle, refl))
  step-Quiet trim cancelled n =
      if_intro (Quiet s) s.open_now _ s (λ _. (λ g l. idle g (omega arith), refl))
        (λ _. (idle, refl))
  step-Quiet trim (picked path) n =
      if_intro (Quiet s) s.open_now _ s (λ _. (idle, refl)) (λ _. (idle, refl))
  step-Quiet trim next_from_picker n =
      if_intro (Quiet s) (s.open_now && (s.page == 1)) _ s (λ _. advance-Quiet trim s.selected)
        (λ _. (idle, refl))
  step-Quiet trim (named text) n =
      if_intro (Quiet s) (s.open_now && (s.page == 2)) _ s (λ _. (idle, refl)) (λ _. (idle, refl))
  step-Quiet trim touched n =
      if_intro (Quiet s) (s.open_now && (s.page == 2)) _ s (λ _. (idle, refl)) (λ _. (idle, refl))
  step-Quiet trim next n =
      if_intro (Quiet s) (s.open_now && ((s.page == 2) && not (length (trim s.name) == 0))) _ s
        (λ _. (idle, refl)) (λ _. (idle, refl))
  step-Quiet trim back n =
      if_intro (Quiet s) (s.open_now && (ltb 1 s.page && not s.creating)) _ s (λ _. (idle, refl))
        (λ _. (idle, refl))
  step-Quiet trim submitted n = absurd (cc)
  step-Quiet trim (replied i r) n = reply_to-Quiet (take_request i s.pending) i r refl

run-Quiet :
    {W : Type 0} (trim : List ℕ → List ℕ) (s : Wizard W) (es : List (Event W))
    → IsIdle s
    → All (λ e. is_submitted e ≡ false) es
    → (run trim s es).created ≡ s.created
unfolding run
run-Quiet trim s [] idle n = refl
run-Quiet trim s (e ∷ es) idle n =
    let (idle', same) = step-Quiet s idle trim e n.0 in
    run-Quiet trim (step trim s e) es idle' n.1 ∙ same

-- Once the user has cancelled, no answer to a request that is in flight makes a workspace known,
-- whatever happens, until a new request is made.
pub cancelled-quiet :
    {W : Type 0} (trim : List ℕ → List ℕ) (s : Wizard W) (es : List (Event W))
    → IsSound s
    → s.open_now ≡ true
    → All (λ e. is_submitted e ≡ false) es
    → (run trim (step trim s cancelled) es).created ≡ s.created
unfolding step close_wizard
cancelled-quiet trim s es k p n =
    run-Quiet trim (step trim s cancelled) es (rw p (λ g l. k.past g (omega arith))) n ∙ rw p refl
