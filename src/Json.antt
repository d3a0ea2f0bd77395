-- ===== src/Json.antt =====
-- The values of JSON, and for frontend/src/features/split/layout.ts: `JSON.stringify` of a tree of
-- panes, by which `putLayout` sends it.
use oh_my_terminal.Base.{String, Option, none, some, Bool, ite, String-discrete, if◌then◌else◌}
use oh_my_terminal.Base.Number.{Reals, Number, nan, num}
use oh_my_terminal.PaneTree.{PaneNode, SplitDir, h, v, leaf, split}

-- The keys of an object are distinct.
mutual
  pub data Json (R : Type 0) : Type 0 where
    null : Json R
    bool : Bool → Json R
    number : R → Json R
    string : String → Json R
    arr : Items R → Json R
    obj : Fields R → Json R

  pub data Items (R : Type 0) : Type 0 where
    nil : Items R
    cons : Json R → Items R → Items R

  pub data Fields (R : Type 0) : Type 0 where
    end : Fields R
    field : String → Json R → Fields R → Fields R

module _ {R : Type 0} where
  -- `blob[key]`
  unfoldable pub get_field : Fields R → String → Option (Json R)
  get_field end key = none
  get_field (field k x rest) key = ite (String-discrete k key) (some x) (get_field rest key)

abbrev pub json_session : {R : Type 0} → Option String → Json R
json_session none = null
json_session (some s) = string s

abbrev pub json_dir : {R : Type 0} → SplitDir → Json R
json_dir h = string "h"
json_dir v = string "v"

module _ {R : Type 0} ⦃r : Reals R⦄ where
  -- A number that is not finite becomes null.
  abbrev pub json_number : Number R → Json R
  json_number nan = null
  json_number (num a) = if r.is_finite a then number a else null

  unfoldable pub to_json : PaneNode (Number R) → Json R
  to_json (leaf i s) = obj (
      field "kind" (string "leaf") (field "id" (string i) (field "sessionId" (json_session s) end)))
  to_json (split i dir ratio first second) = obj (
      field "kind" (string "split") (
        field "id" (string i) (
          field "dir" (json_dir dir) (
            field "ratio" (json_number ratio)
              (field "first" (to_json first) (field "second" (to_json second) end))))))
