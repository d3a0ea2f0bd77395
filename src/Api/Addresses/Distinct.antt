-- ===== src/Api/Addresses/Distinct.antt =====
-- Two terminals have two sockets.
use Prim.Native.Char.{Char}
use Prim.Native.String.{◌++◌, [], ◌∷◌}
use text.Mathlib.TextLemmas.{
  append_cancel_left, nil-append, cons-append, head-eq_of_cons-eq, tail-eq_of_cons-eq,
}
use oh_my_terminal.Base.{String, ◌≡◌, ◌≢◌, ◌⊎◌, inl, inr, ap, ap₂, refl, sym, ◌∙◌}
use oh_my_terminal.Api.Addresses.{ws_path}

abbrev slash : Char
slash = "/"

-- No character of the text is a slash.
abbrev pub IsPart : String → Type 0
IsPart [] = Unit
IsPart (c ∷ s) = (c ≢ slash) × IsPart s

parts_agree :
    (x y r s : String)
    → IsPart x
    → IsPart y
    → x ++ (slash ∷ r) ≡ y ++ (slash ∷ s)
    → (x ≡ y) × (r ≡ s)
parts_agree [] [] r s p q e = (refl, tail-eq_of_cons-eq (simp nil-append at e))
parts_agree [] (d ∷ y) r s p q e =
    absurd (q.0 (sym (head-eq_of_cons-eq (simp (nil-append, cons-append) at e))))
parts_agree (c ∷ x) [] r s p q e =
    absurd (p.0 (head-eq_of_cons-eq (simp (nil-append, cons-append) at e)))
parts_agree (c ∷ x) (d ∷ y) r s p q e =
    let both : c ∷ (x ++ (slash ∷ r)) ≡ d ∷ (y ++ (slash ∷ s)) = simp cons-append at e in
    let (same, rest) = parts_agree x y r s p.1 q.1 (tail-eq_of_cons-eq both) in
    (ap₂ ◌∷◌ (head-eq_of_cons-eq both) same, rest)

-- The text behind the encoded id of the workspace starts with a slash.
behind_workspace : (x : String) → "/terminals/" ++ x ≡ slash ∷ ("terminals/" ++ x)
behind_workspace x = cons-append slash "terminals/" x

module _ (encode : String → String) where
  -- With an encoding, such as encodeURIComponent, that leaves no slash in the ids: if the addresses
  -- of two terminals' sockets are the same, the encoded ids of their workspaces are, and so are
  -- those of the terminals.
  ws_path_agree :
      (w t w' t' : String)
      → IsPart (encode w)
      → IsPart (encode w')
      → IsPart (encode t)
      → IsPart (encode t')
      → ws_path encode w t ≡ ws_path encode w' t'
      → (encode w ≡ encode w') × (encode t ≡ encode t')
  unfolding ws_path
  ws_path_agree w t w' t' a b c d e =
      let behind = append_cancel_left "/api/workspaces/" _ _ e in
      let (same, rest) =
        parts_agree (encode w) (encode w') ("terminals/" ++ (encode t ++ "/ws"))
          ("terminals/" ++ (encode t' ++ "/ws")) a b
          (ap (encode w ++◌) (sym (behind_workspace (encode t ++ "/ws")))
            ∙ behind
            ∙ ap (encode w' ++◌) (behind_workspace (encode t' ++ "/ws"))) in
      let inner = append_cancel_left "terminals/" _ _ rest in
      (same, (parts_agree (encode t) (encode t') "ws" "ws" c d inner).0)

  -- With an encoding, such as encodeURIComponent, that leaves no slash in these ids and that tells
  -- them apart: terminals that differ in their id or in that of their workspace have sockets with
  -- different addresses.
  pub ws_path-apart :
      (w t w' t' : String)
      → IsPart (encode w)
      → IsPart (encode w')
      → IsPart (encode t)
      → IsPart (encode t')
      → (encode w ≢ encode w') ⊎ (encode t ≢ encode t')
      → ws_path encode w t ≢ ws_path encode w' t'
  ws_path-apart w t w' t' a b c d (inl n) e = n (ws_path_agree w t w' t' a b c d e).0
  ws_path-apart w t w' t' a b c d (inr n) e = n (ws_path_agree w t w' t' a b c d e).1
