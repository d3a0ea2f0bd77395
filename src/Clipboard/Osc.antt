-- ===== src/Clipboard/Osc.antt =====
-- What the clipboard is given.
use oh_my_terminal.Base.{
  ℕ, ◌≡◌, ◌≢◌, ◌∙◌, refl, Option, none, some, Bool, true, false, List, [], ◌∷◌, ◌++◌, All, arith,
  ◌==◌, ◌&&◌, if◌then◌else◌, Bool-cases, ap, sym, if_intro, inl, inr, ◌↔◌,
}
use oh_my_terminal.Clipboard.{
  ExecCommand, copies, refuses, throws, Platform, Page, semicolon, question_mark, write_text,
  copied, first_area, drop_area, append_area, select_area, remove_area, exec_copy, succeeds,
  copy_by_area, copy_text, payload_of, is_query, write_decoded, handle_payload, handle_osc,
}

-- Whether the browser takes a text that the terminal copies.
abbrev pub takes : Platform → Bool
takes p = if p.has_clipboard then p.allows else succeeds p.exec

-- The message asks to copy the text: some target without a semicolon, a semicolon, and a payload that is
-- no question and encodes the text.
abbrev pub IsRequest : (List ℕ → Option (List ℕ)) → List ℕ → List ℕ → Type 0
IsRequest decode message text =
    (target : List ℕ) × (payload : List ℕ) × (message ≡ target ++ semicolon ∷ payload)
    × All (λ c. (c == semicolon) ≡ false) target
    × (payload ≢ question_mark ∷ [])
    × (decode payload ≡ some text)

copy_by_area-areas :
    (e : ExecCommand) (text : List ℕ) (s : Page) → (copy_by_area e text s).areas ≡ s.areas
unfolding copy_by_area append_area select_area exec_copy remove_area copied first_area drop_area
    write_text
copy_by_area-areas copies text s = refl
copy_by_area-areas refuses text s = refl
copy_by_area-areas throws text s = refl

copy_by_area-clipboard :
    (e : ExecCommand) (text : List ℕ) (s : Page)
    → (copy_by_area e text s).clipboard ≡ (if succeeds e then some text else s.clipboard)
unfolding copy_by_area append_area select_area exec_copy remove_area copied first_area drop_area
    write_text succeeds
copy_by_area-clipboard copies text s = refl
copy_by_area-clipboard refuses text s = refl
copy_by_area-clipboard throws text s = refl

-- Whatever the browser offers and allows, `copyText` leaves the page's elements as they were, and it
-- tells the truth: if it says that it has copied the text, the clipboard has the text, and else the
-- clipboard is as it was.
copy_text-tells :
    (p : Platform) (text : List ℕ) (s : Page)
    → let t = copy_text p text s in
      (t.1.areas ≡ s.areas) × (t.1.clipboard ≡ (if t.0 then some text else s.clipboard))
unfolding copy_text write_text
copy_text-tells p text s = elim (Bool-cases (p.has_clipboard && p.allows)) [
  | inl e ↦ rw e ((refl, refl))
  | inr e ↦ rw e ((copy_by_area-areas p.exec text s, copy_by_area-clipboard p.exec text s))
]

write_decoded-clipboard :
    (p : Platform) (text : List ℕ) (s : Page)
    → ((write_decoded p (some text) s).areas ≡ s.areas)
      × ((write_decoded p (some text) s).clipboard ≡ (if takes p then some text else s.clipboard))
unfolding write_decoded write_text
write_decoded-clipboard p text s =
    ground (arith, copy_by_area-areas p.exec text s, copy_by_area-clipboard p.exec text s)

write_decoded-areas :
    (p : Platform) (x : Option (List ℕ)) (s : Page) → (write_decoded p x s).areas ≡ s.areas
unfolding write_decoded
write_decoded-areas p none s = refl
write_decoded-areas p (some text) s = (write_decoded-clipboard p text s).0

payload_of-append :
    (target payload : List ℕ)
    → All (λ c. (c == semicolon) ≡ false) target
    → payload_of (target ++ semicolon ∷ payload) ≡ some payload
unfolding payload_of
payload_of-append [] payload h = refl
payload_of-append (c ∷ cs) payload h = rw h.0 (payload_of-append cs payload h.1)

payload_of-some :
    (message payload : List ℕ)
    → payload_of message ≡ some payload
    → (target : List ℕ) × (message ≡ target ++ semicolon ∷ payload)
      × All (λ c. (c == semicolon) ≡ false) target
unfolding payload_of
payload_of-some [] payload e = absurd (cc e)
payload_of-some (c ∷ cs) payload e = elim (Bool-cases (c == semicolon)) [
  | inl q ↦ ([], ground (arith, e, q), tt)
  | inr q ↦
      let (target, cut, h) = payload_of-some cs payload (ground (arith, e, q)) in
      (c ∷ target, ap (λ s. c ∷ s) cut, (q, h))
]

is_query-other : (payload : List ℕ) → payload ≢ question_mark ∷ [] → is_query payload ≡ false
unfolding is_query
is_query-other [] n = refl
is_query-other (c ∷ []) n = elim (Bool-cases (c == question_mark)) [
  | inl e ↦ absurd (n (ground (arith, e)))
  | inr e ↦ e
]
is_query-other (c ∷ d ∷ cs) n = refl

other-is_query : (payload : List ℕ) → is_query payload ≡ false → payload ≢ question_mark ∷ []
unfolding is_query
other-is_query payload n e = absurd (cc (n, ap is_query e))

module _ (p : Platform) (decode : List ℕ → Option (List ℕ)) (text : List ℕ) (s : Page) where
  handle_payload-areas : (x : Option (List ℕ)) → (handle_payload p decode x s).areas ≡ s.areas
  unfolding handle_payload
  handle_payload-areas none = refl
  handle_payload-areas (some payload) =
      if_intro (λ t. t.areas ≡ s.areas) (is_query payload) s (write_decoded p (decode payload) s)
        (λ _. refl) (λ _. write_decoded-areas p (decode payload) s)

  handle_payload-copied :
      (payload : List ℕ)
      → is_query payload ≡ false
      → decode payload ≡ some text
      → takes p ≡ true
      → (handle_payload p decode (some payload) s).clipboard ≡ some text
  unfolding handle_payload
  handle_payload-copied payload n d h = rw n (
      rw d
        ((write_decoded-clipboard p text s).1 ∙ ap (λ b. if b then some text else s.clipboard) h))

  write_decoded-taken :
      (x : Option (List ℕ))
      → s.clipboard ≢ some text
      → (write_decoded p x s).clipboard ≡ some text
      → (x ≡ some text) × (takes p ≡ true)
  unfolding write_decoded
  write_decoded-taken none other e = absurd (other e)
  write_decoded-taken (some u) other e =
      let c = write_decoded-clipboard p u s in
      elim (Bool-cases (takes p)) [
        | inl h ↦ (sym (ap (λ b. if b then some u else s.clipboard) h) ∙ sym c.1 ∙ e, h)
        | inr h ↦ absurd (other (sym (ap (λ b. if b then some u else s.clipboard) h) ∙ sym c.1 ∙ e))
      ]

  handle_payload-taken :
      (x : Option (List ℕ))
      → s.clipboard ≢ some text
      → (handle_payload p decode x s).clipboard ≡ some text
      → (payload : List ℕ) × (x ≡ some payload)
        × (is_query payload ≡ false)
        × (decode payload ≡ some text)
        × (takes p ≡ true)
  unfolding handle_payload
  handle_payload-taken none other e = absurd (other e)
  handle_payload-taken (some payload) other e =
      let after : Bool → Option (List ℕ) =
        λ b. (if b then s else write_decoded p (decode payload) s).clipboard in
      elim (Bool-cases (is_query payload)) [
        | inl q ↦ absurd (other (sym (ap after q) ∙ e))
        | inr n ↦
            let (d, h) = write_decoded-taken (decode payload) other (sym (ap after n) ∙ e) in
            (payload, refl, n, d, h)
      ]

  request-copied :
      (message : List ℕ)
      → IsRequest decode message text
      → takes p ≡ true
      → (handle_osc p decode message s).1.clipboard ≡ some text
  unfolding handle_osc
  request-copied message (target, payload, cut, plain, n, d) h =
      ap (λ m. (handle_payload p decode (payload_of m) s).clipboard) cut
      ∙ ap (λ x. (handle_payload p decode x s).clipboard) (payload_of-append target payload plain)
      ∙ handle_payload-copied payload (is_query-other payload n) d h

  -- Where the clipboard does not hold a text: after a message of the terminal it does exactly if the
  -- message asks to copy this text and the browser takes it. The handler always reports the message
  -- as handled, and leaves the page's elements as they were.
  pub handle_osc_iff :
      (message : List ℕ)
      → s.clipboard ≢ some text
      → let t = handle_osc p decode message s in
        (t.0 ≡ true)
        × (t.1.areas ≡ s.areas)
        × ((t.1.clipboard ≡ some text) ↔ IsRequest decode message text × (takes p ≡ true))
  unfolding handle_osc
  handle_osc_iff message other =
      let found : (handle_osc p decode message s).1.clipboard ≡ some text
          → IsRequest decode message text × (takes p ≡ true) =
        λ e.
          let (payload, x, n, d, h) = handle_payload-taken (payload_of message) other e in
          let (target, cut, plain) = payload_of-some message payload x in
          ((target, payload, cut, plain, other-is_query payload n, d), h) in
      (
        refl,
        handle_payload-areas (payload_of message),
        (found, λ r. request-copied message r.0 r.1),
      )
