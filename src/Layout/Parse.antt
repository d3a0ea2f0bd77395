-- ===== src/Layout/Parse.antt =====
-- `parseLayout`: a blob from the server, read as a tree of panes.
use oh_my_terminal.Base.{String, Option, none, some, ite, String-discrete}
use oh_my_terminal.Base.Number.{Reals, Number, num}
use oh_my_terminal.PaneTree.{PaneNode, SplitDir, h, v, leaf, split, default_ratio}
use oh_my_terminal.Json.{Json, number, string, obj, Fields, end, field, get_field}

module _ {R : Type 0} where
  -- `typeof v === "string" ? v : null`, of a property that may be undefined.
  as_string : Option (Json R) → Option String
  as_string (some (string s)) = some s
  as_string _ = none

  as_number : Option (Json R) → Option (Number R)
  as_number (some (number a)) = some (num a)
  as_number _ = none

  read_string : Fields R → String → Option String
  unfolding as_string
  read_string fs key = as_string (get_field fs key)

  read_number : Fields R → String → Option (Number R)
  unfolding as_number
  read_number fs key = as_number (get_field fs key)

as_dir : Option String → Option SplitDir
as_dir none = none
as_dir (some s) = ite (String-discrete s "h") (some h) (ite (String-discrete s "v") (some v) none)

infixl 5 ◌>>=◌
abbrev ◌>>=◌ : {A B : Type 0} → Option A → (A → Option B) → Option B
none >>= k = none
some a >>= k = k a

module _ {R : Type 0} ⦃r : Reals R⦄ where
  ratio_or_default : Option (Number R) → Number R
  ratio_or_default none = default_ratio
  ratio_or_default (some x) = x

  parse_split :
      Fields R
      → String
      → Option (PaneNode (Number R))
      → Option (PaneNode (Number R))
      → Option (PaneNode (Number R))
  unfolding read_string read_number as_dir ratio_or_default
  parse_split fs i first second = do
    dir ← as_dir (read_string fs "dir")
    a ← first
    b ← second
    some (split i dir (ratio_or_default (read_number fs "ratio")) a b)

  parse_kind :
      Fields R
      → String
      → Option (PaneNode (Number R))
      → Option (PaneNode (Number R))
      → String
      → Option (PaneNode (Number R))
  unfolding parse_split
  parse_kind fs i first second kind =
      ite (String-discrete kind "leaf") (some (leaf i (read_string fs "sessionId")))
        (ite (String-discrete kind "split") (parse_split fs i first second) none)

  -- The body, given what the recursive calls on `first` and `second` return.
  parse_object :
      Fields R
      → Option (PaneNode (Number R))
      → Option (PaneNode (Number R))
      → Option (PaneNode (Number R))
  unfolding parse_kind
  parse_object fs first second = do
    i ← read_string fs "id"
    kind ← read_string fs "kind"
    parse_kind fs i first second kind

  unfoldable mutual
    unfolding parse_object

    pub parse_layout : Json R → Option (PaneNode (Number R))
    parse_layout (obj fs) = parse_object fs (parse_field fs "first") (parse_field fs "second")
    parse_layout _ = none

    pub parse_field : Fields R → String → Option (PaneNode (Number R))
    parse_field end key = none
    parse_field (field k x rest) key =
        ite (String-discrete k key) (parse_layout x) (parse_field rest key)
