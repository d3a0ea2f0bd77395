-- ===== src/FileTree.antt =====
-- frontend/src/features/terminal/FileTree.tsx and frontend/src/lib/path.ts: the order of the entries of
-- a folder, its lazy load, and the text of a size. A text is a list of code units. The order of names
-- by `localeCompare`, `Array.prototype.sort` and the printing of numbers are the platform's.
pub mod Order
pub mod Folders
pub mod Sizes
pub mod Paths
mod Tests
use oh_my_terminal.Base.{
  ℕ, suc, ◌+◌, ◌*◌, ◌/◌, ◌%◌, ◌-◌, Option, none, some, List, [], ◌∷◌, ◌++◌, Bool, true, false, not,
  ◌&&◌, ◌==◌, ltb, length, if◌then◌else◌,
}
use oh_my_terminal.Wizard.{slash, ends_with_slash}

pub record FsEntry : Type 0 where
  pub name : List ℕ
  pub is_dir : Bool
  pub size : ℕ
  pub mod_time : List ℕ

-- The sign of what a comparison returns.
pub data Sign : Type 0 where
  before same after : Sign

abbrev pub same_kind : Bool → Bool → Bool
same_kind true b = b
same_kind false b = not b

-- The comparison of `sortEntries`.
unfoldable pub compare_entries : (List ℕ → List ℕ → Sign) → FsEntry → FsEntry → Sign
compare_entries locale_compare a b =
    if same_kind a.is_dir b.is_dir
    then locale_compare a.name b.name
    else if a.is_dir
    then before
    else after

unfoldable pub sort_entries :
    ((FsEntry → FsEntry → Sign) → List FsEntry → List FsEntry)
    → (List ℕ → List ℕ → Sign)
    → List FsEntry
    → List FsEntry
unfolding compare_entries
sort_entries sort locale_compare entries = sort (compare_entries locale_compare) entries

-- frontend/src/lib/path.ts
unfoldable pub join_path : List ℕ → List ℕ → List ℕ
join_path [] name = slash ∷ name
join_path (c ∷ cs) name =
    if ends_with_slash (c ∷ cs) then (c ∷ cs) ++ name else (c ∷ cs) ++ slash ∷ name

abbrev pub kilo : ℕ
kilo = 1024

-- `(bytes / unit).toFixed(1)` in tenths: the quotient is exact, and a tie goes up.
unfoldable pub tenths : ℕ → ℕ → ℕ
tenths bytes unit = (20 * bytes + unit) / (2 * unit)

pub data Size : Type 0 where
  whole : (bytes : ℕ) → Size
  in_kb in_mb in_gb : (tenths : ℕ) → Size

unfoldable pub format_size : ℕ → Size
unfolding tenths
format_size bytes =
    if ltb bytes kilo
    then whole bytes
    else if ltb bytes (kilo * kilo)
    then in_kb (tenths bytes kilo)
    else if ltb bytes (kilo * kilo * kilo)
    then in_mb (tenths bytes (kilo * kilo))
    else in_gb (tenths bytes (kilo * kilo * kilo))

-- A folder of the tree. `requests` counts the calls of `fsList`, `in_flight` those without an answer.
pub record Folder (L : Type 0) : Type 0 where
  pub expanded : Bool
  pub children : Option L
  pub loading : Bool
  pub error : List ℕ
  pub mounted : Bool
  pub in_flight : ℕ
  pub requests : ℕ

pub data Reply (L : Type 0) : Type 0 where
  listed : L → Reply L
  refused : (message : List ℕ) → Reply L

pub data Event (L : Type 0) : Type 0 where
  toggled unmounted : Event L
  replied : Reply L → Event L

-- What is shown below the folder's row.
pub data Below (L : Type 0) : Type 0 where
  nothing waiting : Below L
  failure : (message : List ℕ) → Below L
  entries : L → Below L

module _ {L : Type 0} where
  abbrev pub folded : Folder L
  folded = record {
    expanded = false;
    children = none;
    loading = false;
    error = [];
    mounted = true;
    in_flight = 0;
    requests = 0;
  }

  abbrev pub is_none : Option L → Bool
  is_none none = true
  is_none (some _) = false

  unfoldable pub load : Folder L → Folder L
  load s = record s {
    loading = true;
    error = [];
    in_flight = suc s.in_flight;
    requests = suc s.requests;
  }

  unfoldable pub toggle : Folder L → Folder L
  unfolding load
  toggle s =
      let next = not s.expanded in
      let flipped = record s { expanded = next } in
      if next && (is_none s.children && not s.loading) then load flipped else flipped

  unfoldable pub receive : Reply L → Folder L → Folder L
  receive (listed res) s = record s { children = some res; loading = false }
  receive (refused message) s = record s { error = message; loading = false }

  -- An answer comes only to a request in flight; after the unmount it changes nothing.
  unfoldable pub settle : Reply L → Folder L → Folder L
  unfolding receive
  settle r s =
      let taken = record s { in_flight = s.in_flight - 1 } in
      if ltb 0 s.in_flight then (if s.mounted then receive r taken else taken) else s

  -- The chevron is there only while the row is.
  unfoldable pub step : Folder L → Event L → Folder L
  unfolding toggle settle
  step s toggled = if s.mounted then toggle s else s
  step s unmounted = record s { mounted = false }
  step s (replied r) = settle r s

  unfoldable pub run : Folder L → List (Event L) → Folder L
  unfolding step
  run s [] = s
  run s (e ∷ es) = run (step s e) es

  children_below : Option L → Below L
  children_below none = nothing
  children_below (some res) = entries res

  unfoldable pub below : Folder L → Below L
  unfolding children_below
  below s =
      if s.expanded
      then if s.loading
        then waiting
        else if ltb 0 (length s.error)
        then failure s.error
        else children_below s.children
      else nothing
