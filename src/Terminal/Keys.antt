-- ===== src/Terminal/Keys.antt =====
-- frontend/src/features/split/terminalKeys.ts: keys that are sent as sequences of their own.
use oh_my_terminal.Base.{
  ℕ, ◌≡◌, ◌≢◌, ◌↔◌, Bool-cases, inl, inr, apart, subst, eq_of_some, sym, ◌∙◌, String,
  String-discrete, Option, none, some, List, [], ◌∷◌, ite, Bool, true, false, if◌then◌else◌, arith,
  refl, not, ◌&&◌, ◌||◌,
}

pub record KeyEvent : Type 0 where
  pub keydown : Bool
  pub key : String
  pub ctrl : Bool
  pub meta : Bool
  pub shift : Bool
  pub alt : Bool
  pub is_composing : Bool

-- What the handler did: whether xterm goes on with the key, and what was sent in its place.
pub record Handled : Type 0 where
  pub default : Bool
  pub sent : Option (List ℕ)

abbrev pub passed : Handled
passed = record { default = true; sent = none }

abbrev pub replaced : List ℕ → Handled
replaced d = record { default = false; sent = some d }

-- `ARROW_KEYS`
unfoldable pub arrow_keys : String → Option (List ℕ × List ℕ)
arrow_keys key =
    ite (String-discrete key "ArrowLeft") (some (27 ∷ 98 ∷ [], 1 ∷ []))
      (ite (String-discrete key "ArrowRight") (some (27 ∷ 102 ∷ [], 5 ∷ [])) none)

-- `META_EDIT_KEYS`
unfoldable pub meta_edit_keys : String → Option (List ℕ)
meta_edit_keys key =
    ite (String-discrete key "Backspace") (some (21 ∷ []))
      (ite (String-discrete key "Delete") (some (11 ∷ [])) none)

abbrev pub differ : Bool → Bool → Bool
differ true b = not b
differ false b = b

-- The sequence for Shift+Enter.
abbrev pub kitty_enter : List ℕ
kitty_enter = 27 ∷ 91 ∷ 49 ∷ 51 ∷ 59 ∷ 50 ∷ 117 ∷ []

unfoldable pub shift_enter : KeyEvent → Bool → Handled
shift_enter e composing =
    if ite (String-discrete e.key "Enter") true false
      && (e.shift
          && (not e.ctrl && (not e.alt && (not e.meta && (not e.is_composing && not composing)))))
    then replaced kitty_enter
    else passed

unfoldable pub edit_key : KeyEvent → Option (List ℕ) → Bool → Handled
unfolding shift_enter
edit_key e none composing = shift_enter e composing
edit_key e (some d) composing = if e.meta && not e.ctrl then replaced d else shift_enter e composing

unfoldable pub arrow_key : KeyEvent → Option (List ℕ × List ℕ) → Bool → Handled
unfolding edit_key
arrow_key e none composing = edit_key e (meta_edit_keys e.key) composing
arrow_key e (some (word, line)) composing =
    if differ e.ctrl e.meta
    then replaced (if e.ctrl then word else line)
    else edit_key e (meta_edit_keys e.key) composing

-- The handler that `registerTerminalKeys` attaches.
unfoldable pub handle_key : KeyEvent → Bool → Handled
unfolding arrow_key
handle_key e composing =
    if not e.keydown
    then passed
    else if not e.shift && (not e.alt && (not e.is_composing && not composing))
    then arrow_key e (arrow_keys e.key) composing
    else shift_enter e composing

-- While a text is being composed, and for a key that goes up, xterm handles the key.
pub handle_key-passed :
    (e : KeyEvent) (composing : Bool)
    → (e.keydown && not (e.is_composing || composing)) ≡ false
    → handle_key e composing ≡ passed
unfolding handle_key shift_enter
handle_key-passed e composing h = ground arith

-- The keys that are replaced, and by what.
pub data Replaced (e : KeyEvent) : List ℕ → Type 0 where
  word_left :
      e.key ≡ "ArrowLeft"
      → e.ctrl ≡ true
      → e.meta ≡ false
      → e.shift ≡ false
      → Replaced e (27 ∷ 98 ∷ [])
  word_right :
      e.key ≡ "ArrowRight"
      → e.ctrl ≡ true
      → e.meta ≡ false
      → e.shift ≡ false
      → Replaced e (27 ∷ 102 ∷ [])
  line_start :
      e.key ≡ "ArrowLeft" → e.ctrl ≡ false → e.meta ≡ true → e.shift ≡ false → Replaced e (1 ∷ [])
  line_end :
      e.key ≡ "ArrowRight" → e.ctrl ≡ false → e.meta ≡ true → e.shift ≡ false → Replaced e (5 ∷ [])
  delete_line :
      e.key ≡ "Backspace" → e.ctrl ≡ false → e.meta ≡ true → e.shift ≡ false → Replaced e (21 ∷ [])
  delete_rest :
      e.key ≡ "Delete" → e.ctrl ≡ false → e.meta ≡ true → e.shift ≡ false → Replaced e (11 ∷ [])
  newline :
      e.key ≡ "Enter" → e.ctrl ≡ false → e.meta ≡ false → e.shift ≡ true → Replaced e kitty_enter

-- The key is pressed, and no text is being composed.
abbrev pub IsPlain : KeyEvent → Bool → Type 0
IsPlain e composing =
    (e.keydown ≡ true) × (e.alt ≡ false) × (e.is_composing ≡ false) × (composing ≡ false)

-- Of two different texts a key is at most one.
one_key : (k a b : String) → ite (String-discrete a b) true false ≡ false → k ≡ a → k ≢ b
one_key k a b t p q = apart a b t (sym p ∙ q)

module _ (e : KeyEvent) (composing : Bool) where
  sends : (d : List ℕ) → IsPlain e composing × Replaced e d → (handle_key e composing).sent ≡ some d
  unfolding handle_key arrow_keys meta_edit_keys shift_enter String-discrete
  sends d (p, word_left k c m h) = rw (p.0, p.1, p.2, p.3, k, c, m, h) refl
  sends d (p, word_right k c m h) = rw (p.0, p.1, p.2, p.3, k, c, m, h) refl
  sends d (p, line_start k c m h) = rw (p.0, p.1, p.2, p.3, k, c, m, h) refl
  sends d (p, line_end k c m h) = rw (p.0, p.1, p.2, p.3, k, c, m, h) refl
  sends d (p, delete_line k c m h) = rw (p.0, p.1, p.2, p.3, k, c, m, h) refl
  sends d (p, delete_rest k c m h) = rw (p.0, p.1, p.2, p.3, k, c, m, h) refl
  sends d (p, newline k c m h) = rw (p.0, p.1, p.2, p.3, k, c, m, h) refl

  sent_shift_enter :
      (d : List ℕ)
      → e.keydown ≡ true
      → (shift_enter e composing).sent ≡ some d
      → IsPlain e composing × Replaced e d
  unfolding shift_enter
  sent_shift_enter d k h =
      let key : e.key ≡ "Enter" = ground arith in
      let flags : IsPlain e composing × (e.ctrl ≡ false) × (e.meta ≡ false) × (e.shift ≡ true) =
        ground arith in
      let same : some kitty_enter ≡ some d = ground arith in
      (flags.0, subst (Replaced e) (eq_of_some same) (newline key flags.1 flags.2 flags.3))

  sent_edit :
      (d : List ℕ)
      → IsPlain e composing
      → e.shift ≡ false
      → (edit_key e (meta_edit_keys e.key) composing).sent ≡ some d
      → Replaced e d
  unfolding edit_key meta_edit_keys shift_enter
  sent_edit d p sh h = elim (String-discrete e.key "Backspace") [
    | yes q ↦
        let same : (e.ctrl ≡ false) × (e.meta ≡ true) × (some (21 ∷ []) ≡ some d) = ground arith in
        subst (Replaced e) (eq_of_some same.2) (delete_line q same.0 same.1 sh)
    | no n ↦
        let key : e.key ≡ "Delete" = ground arith in
        let same : (e.ctrl ≡ false) × (e.meta ≡ true) × (some (11 ∷ []) ≡ some d) = ground arith in
        subst (Replaced e) (eq_of_some same.2) (delete_rest key same.0 same.1 sh)
  ]

  -- Ctrl or Meta alone picks a sequence; with neither or both the key is looked up further.
  data Picked (word line d : List ℕ) : Type 0 where
    by_ctrl : e.ctrl ≡ true → e.meta ≡ false → word ≡ d → Picked word line d
    by_meta : e.ctrl ≡ false → e.meta ≡ true → line ≡ d → Picked word line d
    further : (edit_key e (meta_edit_keys e.key) composing).sent ≡ some d → Picked word line d

  arrow_key-Picked :
      (word line d : List ℕ)
      → (arrow_key e (some (word, line)) composing).sent ≡ some d
      → Picked word line d
  unfolding arrow_key
  arrow_key-Picked word line d h = elim (Bool-cases e.ctrl) [
    | inl c ↦ elim (Bool-cases e.meta) [
      | inl m ↦ further (ground arith)
      | inr m ↦ by_ctrl c m (eq_of_some (ground arith))
    ]
    | inr c ↦ elim (Bool-cases e.meta) [
      | inl m ↦ by_meta c m (eq_of_some (ground arith))
      | inr m ↦ further (ground arith)
    ]
  ]

  none_arrow :
      (d : List ℕ)
      → IsPlain e composing
      → e.shift ≡ false
      → (arrow_key e none composing).sent ≡ some d
      → Replaced e d
  unfolding arrow_key
  none_arrow d p sh h = sent_edit d p sh h

  sent_arrow :
      (d : List ℕ)
      → IsPlain e composing
      → e.shift ≡ false
      → (arrow_key e (arrow_keys e.key) composing).sent ≡ some d
      → Replaced e d
  unfolding arrow_keys
  sent_arrow d p sh h = elim (String-discrete e.key "ArrowLeft") [
    | yes q ↦
        let h' : (arrow_key e (some (27 ∷ 98 ∷ [], 1 ∷ [])) composing).sent ≡ some d =
          ground arith in
        elim (arrow_key-Picked (27 ∷ 98 ∷ []) (1 ∷ []) d h') [
          | by_ctrl c m same ↦ subst (Replaced e) same (word_left q c m sh)
          | by_meta c m same ↦ subst (Replaced e) same (line_start q c m sh)
          | further f ↦ sent_edit d p sh f
        ]
    | no n ↦ elim (String-discrete e.key "ArrowRight") [
      | yes q ↦
          let h' : (arrow_key e (some (27 ∷ 102 ∷ [], 5 ∷ [])) composing).sent ≡ some d =
            ground arith in
          elim (arrow_key-Picked (27 ∷ 102 ∷ []) (5 ∷ []) d h') [
            | by_ctrl c m same ↦ subst (Replaced e) same (word_right q c m sh)
            | by_meta c m same ↦ subst (Replaced e) same (line_end q c m sh)
            | further f ↦ sent_edit d p sh f
          ]
      | no m ↦
          let h' : (arrow_key e none composing).sent ≡ some d = ground arith in none_arrow d p sh h'
    ]
  ]

  sent-Replaced :
      (d : List ℕ) → (handle_key e composing).sent ≡ some d → IsPlain e composing × Replaced e d
  unfolding handle_key
  sent-Replaced d h =
      elim (Bool-cases (not e.shift && (not e.alt && (not e.is_composing && not composing)))) [
        | inl t ↦
            let k : e.keydown ≡ true = ground arith in
            let p : IsPlain e composing = ground arith in
            (p, sent_arrow d p (ground arith) (ground arith))
        | inr t ↦ sent_shift_enter d (ground arith) (ground arith)
      ]

  -- The handler sends a text exactly if the key is pressed while no text is being composed and Alt
  -- is not held, and the text is the one of the key and the other modifiers in the table: Ctrl with
  -- an arrow moves by a word, Meta with an arrow to an end of the line, Meta with Backspace or Delete
  -- kills to an end of the line, and Shift with Enter is a new line.
  pub handle_key_iff :
      (d : List ℕ) → ((handle_key e composing).sent ≡ some d) ↔ (IsPlain e composing × Replaced e d)
  handle_key_iff d = (sent-Replaced d, sends d)
