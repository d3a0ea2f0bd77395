-- ===== src/I18n/Tests.antt =====
-- A text with a placeholder, and the theorem at it.
use oh_my_terminal.Base.{ℕ, ◌≡◌, String-discrete, Option, none, some, List, [], ◌∷◌, All, refl}
use oh_my_terminal.I18n.{
  Lang, en, ko, translate, template_of, replace, replace_from, scan, scan_outside, scan_inside,
  value_of, is_word, detect_lang, persist_lang,
}
use oh_my_terminal.I18n.Templates.{
  Piece, plain, placeholder, written, meant, IsPiece, translate-meant,
}

-- "a {n}", in English only.
abbrev tables : Lang → List ℕ → Option (List ℕ)
tables en key = some (97 ∷ 32 ∷ 123 ∷ 110 ∷ 125 ∷ [])
tables ko key = none

abbrev pieces : List Piece
pieces = plain (97 ∷ 32 ∷ []) ∷ placeholder (110 ∷ []) ∷ []

abbrev seven : List ℕ → Option (List ℕ)
seven name = some (55 ∷ [])

taken : template_of tables ko [] ≡ written pieces
unfolding template_of written
taken = refl

pieces-IsPiece : All IsPiece pieces
unfolding is_word
pieces-IsPiece = ((refl, (refl, tt)), (((refl, tt), refl), tt))

translate-meant_example :
    (translate tables ko [] (some seven) ≡ meant seven pieces)
    × (translate tables ko [] none ≡ written pieces)
translate-meant_example = translate-meant tables ko [] seven pieces taken pieces-IsPiece

-- "a 7"
filled_in : translate tables ko [] (some seven) ≡ 97 ∷ 32 ∷ 55 ∷ []
unfolding translate template_of replace replace_from scan scan_outside scan_inside is_word value_of
filled_in = refl

-- What is not a placeholder stays: "{ {}", where the second brace begins anew.
left_alone : replace seven (123 ∷ 32 ∷ 123 ∷ 125 ∷ []) ≡ 123 ∷ 32 ∷ 123 ∷ 125 ∷ []
unfolding replace replace_from scan scan_outside scan_inside is_word value_of
left_alone = refl

-- A language that is stored is found again.
remembered : (lang : Lang) → detect_lang (λ s. s) "ko-KR" (persist_lang lang) ≡ lang
unfolding detect_lang persist_lang String-discrete
remembered en = refl
remembered ko = refl
