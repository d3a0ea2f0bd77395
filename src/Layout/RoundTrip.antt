-- ===== src/Layout/RoundTrip.antt =====
-- A saved tree, read back by `parseLayout`.
use oh_my_terminal.Base.{
  String, arith, none, some, String-discrete, if◌then◌else◌, ◌≡◌, refl, Bool-cases, inl, inr,
}
use oh_my_terminal.Base.Number.{Reals, Number, nan, num}
use oh_my_terminal.PaneTree.{PaneNode, h, v, leaf, split, default_ratio}
use oh_my_terminal.Json.{get_field, to_json}
use oh_my_terminal.PaneTree.Panes.{count_leaf, count_split, count_session}
use oh_my_terminal.Layout.Tidy.{IsTidy}
use oh_my_terminal.Layout.Parse.{parse_layout}

module _ {R : Type 0} ⦃r : Reals R⦄ where
  -- A ratio that JSON cannot hold is read back as the default.
  repair_ratio : Number R → Number R
  repair_ratio nan = default_ratio
  repair_ratio (num a) = if r.is_finite a then num a else default_ratio

  pub repair : PaneNode (Number R) → PaneNode (Number R)
  unfolding repair_ratio
  repair (leaf i s) = leaf i s
  repair (split i d x a b) = split i d (repair_ratio x) (repair a) (repair b)

  -- A saved tree is read back as it was, but for ratios that are not finite, which become the
  -- default.
  pub parse_layout-to_json : (t : PaneNode (Number R)) → parse_layout (to_json t) ≡ some (repair t)
  unfolding parse_layout to_json repair get_field String-discrete
  parse_layout-to_json (leaf i none) = refl
  parse_layout-to_json (leaf i (some s)) = refl
  parse_layout-to_json (split i h nan a b) = rw (parse_layout-to_json a, parse_layout-to_json b)
  parse_layout-to_json (split i h (num x) a b) = elim (Bool-cases (r.is_finite x)) [
    | inl e ↦ rw (e, parse_layout-to_json a, parse_layout-to_json b)
    | inr e ↦ rw (e, parse_layout-to_json a, parse_layout-to_json b)
  ]
  parse_layout-to_json (split i v nan a b) = rw (parse_layout-to_json a, parse_layout-to_json b)
  parse_layout-to_json (split i v (num x) a b) = elim (Bool-cases (r.is_finite x)) [
    | inl e ↦ rw (e, parse_layout-to_json a, parse_layout-to_json b)
    | inr e ↦ rw (e, parse_layout-to_json a, parse_layout-to_json b)
  ]

  count-repair :
      (j : String) (t : PaneNode (Number R))
      → (count_leaf j (repair t) ≡ count_leaf j t)
        × (count_split j (repair t) ≡ count_split j t)
        × (count_session j (repair t) ≡ count_session j t)
  unfolding repair count_leaf count_split count_session
  count-repair j (leaf i s) = (refl, refl, refl)
  count-repair j (split i d x a b) =
      let (l, s, o) = count-repair j a in
      let (l', s', o') = count-repair j b in (omega arith, omega arith, omega arith)

  pub repair-IsTidy : (t : PaneNode (Number R)) → IsTidy t → IsTidy (repair t)
  repair-IsTidy t tidy = record {
    distinct = λ j. omega (arith, count-repair j t, tidy.distinct j);
    once = λ s. omega (arith, count-repair s t, tidy.once s);
  }
