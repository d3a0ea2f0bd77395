-- ===== src/I18n/Templates.antt =====
-- What `translate` makes of a template, written as its pieces.
use oh_my_terminal.Base.{
  ℕ, ◌≡◌, ◌∙◌, sym, ap, Option, none, some, List, [], ◌∷◌, ◌++◌, true, false, ◌==◌, ltb, length,
  All, refl, append_assoc, append-nil,
}
use oh_my_terminal.I18n.{
  Lang, opening, closing, is_word, or_match, value_of, replace_from, Scan, outside, inside, scan,
  scan_outside, scan_inside, replace, template_of, filled, translate,
}

-- A part of a template: a text, or a placeholder.
pub data Piece : Type 0 where
  plain : List ℕ → Piece
  placeholder : (name : List ℕ) → Piece

abbrev pub IsName : List ℕ → Type 0
IsName s = All (λ c. is_word c ≡ true) s

-- A text has no opening brace, and a placeholder has a name of word characters.
abbrev pub IsPiece : Piece → Type 0
IsPiece (plain s) = All (λ c. (c == opening) ≡ false) s
IsPiece (placeholder name) = IsName name × (ltb 0 (length name) ≡ true)

-- The template, and what it stands for.
unfoldable pub written : List Piece → List ℕ
written [] = []
written (plain s ∷ ps) = s ++ written ps
written (placeholder name ∷ ps) = opening ∷ (name ++ closing ∷ written ps)

-- The value of a name, or the placeholder as it is written if it has none.
abbrev pub replacement : List ℕ → Option (List ℕ) → List ℕ
replacement name none = 123 ∷ (name ++ 125 ∷ [])
replacement name (some value) = value

module _ (vars : List ℕ → Option (List ℕ)) where
  unfoldable pub meant : List Piece → List ℕ
  meant [] = []
  meant (plain s ∷ ps) = s ++ meant ps
  meant (placeholder name ∷ ps) = replacement name (vars name) ++ meant ps

  or_match-replacement :
      (name : List ℕ) (o : Option (List ℕ)) → or_match vars name o ≡ replacement name o
  unfolding or_match
  or_match-replacement name none = refl
  or_match-replacement name (some value) = refl

  value_of-replacement : (name : List ℕ) → value_of vars name ≡ replacement name (vars name)
  unfolding value_of
  value_of-replacement name = or_match-replacement name (vars name)

  replace_from-cons :
      (st next : Scan) (c : ℕ) (out s : List ℕ)
      → scan vars st c ≡ (next, out)
      → replace_from vars st (c ∷ s) ≡ out ++ replace_from vars next s
  unfolding replace_from
  replace_from-cons outside next c out s e = ap (λ x. x.1 ++ replace_from vars x.0 s) e
  replace_from-cons (inside word) next c out s e = ap (λ x. x.1 ++ replace_from vars x.0 s) e

  scan-plain : (c : ℕ) → (c == opening) ≡ false → scan vars outside c ≡ (outside, c ∷ [])
  unfolding scan scan_outside
  scan-plain c h = rw h refl

  scan-word :
      (word : List ℕ) (c : ℕ)
      → is_word c ≡ true
      → scan vars (inside word) c ≡ (inside (word ++ c ∷ []), [])
  unfolding scan scan_inside
  scan-word word c h = rw h refl

  scan-closing :
      (word : List ℕ)
      → ltb 0 (length word) ≡ true
      → scan vars (inside word) closing ≡ (outside, value_of vars word)
  unfolding scan scan_inside is_word
  scan-closing word h = rw h refl

  replace_from-plain :
      (s rest : List ℕ)
      → All (λ c. (c == opening) ≡ false) s
      → replace_from vars outside (s ++ rest) ≡ s ++ replace_from vars outside rest
  unfolding replace_from
  replace_from-plain [] rest h = refl
  replace_from-plain (c ∷ s) rest h =
      replace_from-cons outside outside c (c ∷ []) (s ++ rest) (scan-plain c h.0)
      ∙ ap (λ l. c ∷ l) (replace_from-plain s rest h.1)

  replace_from-name :
      (word name rest : List ℕ)
      → IsName name
      → ltb 0 (length (word ++ name)) ≡ true
      → replace_from vars (inside word) (name ++ closing ∷ rest)
        ≡ value_of vars (word ++ name) ++ replace_from vars outside rest
  replace_from-name word [] rest h e =
      let same : word ++ [] ≡ word = append-nil word in
      replace_from-cons (inside word) outside closing (value_of vars word) rest
        (scan-closing word (ap (λ w. ltb 0 (length w)) (sym same) ∙ e))
      ∙ ap (λ w. value_of vars w ++ replace_from vars outside rest) (sym same)
  replace_from-name word (c ∷ name) rest h e =
      let same : (word ++ c ∷ []) ++ name ≡ word ++ c ∷ name = append_assoc word (c ∷ []) name in
      replace_from-cons (inside word) (inside (word ++ c ∷ [])) c [] (name ++ closing ∷ rest)
        (scan-word word c h.0)
      ∙ replace_from-name (word ++ c ∷ []) name rest h.1 (ap (λ w. ltb 0 (length w)) same ∙ e)
      ∙ ap (λ w. value_of vars w ++ replace_from vars outside rest) same

  opens : scan vars outside opening ≡ (inside [], [])
  unfolding scan scan_outside
  opens = refl

  replace-meant : (ps : List Piece) → All IsPiece ps → replace vars (written ps) ≡ meant ps
  unfolding replace written meant
  replace-meant [] h = refl
  replace-meant (plain s ∷ ps) h =
      replace_from-plain s (written ps) h.0 ∙ ap (λ l. s ++ l) (replace-meant ps h.1)
  replace-meant (placeholder name ∷ ps) h =
      replace_from-cons outside (inside []) opening [] (name ++ closing ∷ written ps) opens
      ∙ replace_from-name [] name (written ps) h.0.0 h.0.1
      ∙ ap (λ l. l ++ replace vars (written ps)) (value_of-replacement name)
      ∙ ap (λ l. replacement name (vars name) ++ l) (replace-meant ps h.1)

-- If the template that is taken for a key is written as texts without an opening brace and
-- placeholders with names of word characters, then with variables the result has the texts as they
-- are, and for each placeholder the value of its name, or the placeholder itself if it has none;
-- without variables it is the template.
pub translate-meant :
    (tables : Lang → List ℕ → Option (List ℕ)) (lang : Lang) (key : List ℕ)
    (vars : List ℕ → Option (List ℕ)) (ps : List Piece)
    → template_of tables lang key ≡ written ps
    → All IsPiece ps
    → (translate tables lang key (some vars) ≡ meant vars ps)
      × (translate tables lang key none ≡ written ps)
unfolding translate filled
translate-meant tables lang key vars ps e h = (ap (replace vars) e ∙ replace-meant vars ps h, e)
