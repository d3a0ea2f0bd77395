-- ===== src/I18n.antt =====
-- frontend/src/i18n/index.ts: the language and the texts. A text is a list of code units. The tables
-- of the locales are data and an argument, and so are the variables of a text: what `name in vars`
-- and `vars[name]` give.
pub mod Templates
mod Tests
use text.Mathlib.Text.{starts_with}
use oh_my_terminal.Base.{
  ℕ, String, String-discrete, Option, none, some, List, [], ◌∷◌, ◌++◌, Bool, true, false, ◌==◌, leb,
  ◌&&◌, ◌||◌, not, ltb, length, ite, if◌then◌else◌,
}

pub data Lang : Type 0 where
  en ko : Lang

abbrev pub lang_name : Lang → String
lang_name en = "en"
lang_name ko = "ko"

-- `to_lower` is `toLowerCase`, and `language` what the navigator prefers.
module _ (to_lower : String → String) (language : String) where
  preferred : Lang
  preferred = if starts_with (to_lower language) "ko" then ko else en

  unfoldable pub detect_lang : Option String → Lang
  unfolding preferred
  detect_lang none = preferred
  detect_lang (some stored) =
      ite (String-discrete stored "en") en (ite (String-discrete stored "ko") ko preferred)

-- What the storage has then.
unfoldable pub persist_lang : Lang → Option String
persist_lang lang = some (lang_name lang)

abbrev pub opening : ℕ
opening = 123

abbrev pub closing : ℕ
closing = 125

-- `\w`: a letter, a digit or an underscore of ASCII.
unfoldable pub is_word : ℕ → Bool
is_word c =
    (leb 48 c && leb c 57) || ((leb 65 c && leb c 90) || ((leb 97 c && leb c 122) || (c == 95)))

-- Where the pass is: `inside` keeps the word characters that it has read since the last opening brace,
-- if there has been nothing else.
pub data Scan : Type 0 where
  outside : Scan
  inside : (word : List ℕ) → Scan

module _ (vars : List ℕ → Option (List ℕ)) where
  unfoldable pub or_match : List ℕ → Option (List ℕ) → List ℕ
  or_match name none = opening ∷ (name ++ closing ∷ [])
  or_match name (some value) = value

  -- The replacement of a match with the name.
  unfoldable pub value_of : List ℕ → List ℕ
  unfolding or_match
  value_of name = or_match name (vars name)

  -- Outside of what may be a placeholder, a character is put out or begins one.
  unfoldable pub scan_outside : ℕ → Scan × List ℕ
  scan_outside c = if c == opening then (inside [], []) else (outside, c ∷ [])

  unfoldable pub scan_inside : List ℕ → ℕ → Scan × List ℕ
  unfolding value_of
  scan_inside word c =
      if is_word c
      then (inside (word ++ c ∷ []), [])
      else if (c == closing) && ltb 0 (length word)
      then (outside, value_of word)
      else if c == opening
      then (inside [], opening ∷ word)
      else (outside, opening ∷ (word ++ c ∷ []))

  unfoldable pub scan : Scan → ℕ → Scan × List ℕ
  unfolding scan_outside scan_inside
  scan outside c = scan_outside c
  scan (inside word) c = scan_inside word c

  -- `replace(/\{(\w+)\}/g, …)`, in one pass.
  unfoldable pub replace_from : Scan → List ℕ → List ℕ
  unfolding scan
  replace_from outside [] = []
  replace_from (inside word) [] = opening ∷ word
  replace_from st (c ∷ s) = let (next, out) = scan st c in out ++ replace_from next s

  unfoldable pub replace : List ℕ → List ℕ
  unfolding replace_from
  replace template = replace_from outside template

-- The first that there is.
or_else : Option (List ℕ) → List ℕ → List ℕ
or_else none s = s
or_else (some t) s = t

module _ (tables : Lang → List ℕ → Option (List ℕ)) where
  unfoldable pub template_of : Lang → List ℕ → List ℕ
  unfolding or_else
  template_of lang key = or_else (tables lang key) (or_else (tables en key) key)

  filled : List ℕ → Option (List ℕ → Option (List ℕ)) → List ℕ
  unfolding replace
  filled template none = template
  filled template (some vars) = replace vars template

  unfoldable pub translate : Lang → List ℕ → Option (List ℕ → Option (List ℕ)) → List ℕ
  unfolding template_of filled
  translate lang key vars = filled (template_of lang key) vars
