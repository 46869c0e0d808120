-- ===== src/Departments/Listing.antt =====
-- The list of departments (admin-web/src/pages/app/departments/DepartmentsList.tsx): its filters, the
-- groups by branch, and the rows of the tree. `lower` and `trim` are the platform's, `includes` finds
-- a text in a text, and `name_le` is the order of names.
use hr_profi_uz.Common.{
  String, Bool, List, ℕ, Option, Entries, filter_by, ◌&&◌, if◌then◌else◌, sort_by, map, true, ◌∷◌,
  [], false, some, length, ◌++◌, insert, suc, is_some, not, ◌===◌, none, ◌||◌, lookup, zero,
  is_blank,
}
use hr_profi_uz.Departments.Form.{Department}
use hr_profi_uz.Departments.Picker.{member, parent_of}

pub data StatusFilter : Type 0 where
  all active inactive : StatusFilter

pub record Filters : Type 0 where
  pub query : String
  pub branch_filter : String
  pub status_filter : StatusFilter

-- A row of the table: a department and how far it is indented.
abbrev pub Row : Type 0
Row = Department × ℕ

abbrev pub has_status : StatusFilter → Department → Bool
has_status all d = true
has_status active d = d.is_active
has_status inactive d = not d.is_active

abbrev text_or_empty : Option String → String
text_or_empty none = ""
text_or_empty (some s) = s

module _ (lower trim : String → String) (includes : String → String → Bool) where
  abbrev pub keeps : Filters → Department → Bool
  keeps f d =
      let q = lower (trim f.query) in
      has_status f.status_filter d
      && ((f.branch_filter === "all" || d.branch_id === f.branch_filter)
          && (is_blank q
              || (includes (lower d.name) q || includes (lower (text_or_empty d.code)) q)))

  unfoldable pub filtered : Filters → List Department → List Department
  filtered f ds = filter_by (keeps f) ds

abbrev pub or_nil : Option (List Department) → List Department
or_nil none = []
or_nil (some ds) = ds

-- `byBranch`
unfoldable pub by_branch : List Department → Entries (List Department) → Entries (List Department)
by_branch [] m = m
by_branch (d ∷ ds) m = by_branch ds (insert d.branch_id (or_nil (lookup d.branch_id m) ++ d ∷ []) m)

-- `branchOrder`, the ids: the loaded branches that have departments, then the unknown ones.
unfoldable pub branch_order : List String → Entries (List Department) → List String
branch_order branches m =
    filter_by (λ id. is_some (lookup id m)) branches
    ++ filter_by (λ id. not (member id branches)) (map (λ e. e.0) m)

-- `idToNode`
unfoldable pub id_to_node : List Department → Entries Department → Entries Department
id_to_node [] m = m
id_to_node (d ∷ ds) m = id_to_node ds (insert d.id d m)

abbrev pub nodes : List Department → List Department
nodes ds = map (λ e. e.1) (id_to_node ds [])

-- `node.parent_id ? idToNode.get(node.parent_id) : undefined`
abbrev pub parent_in : List Department → Department → Option String
parent_in ds d = elim (parent_of d.parent_id) [
  | none ↦ none
  | some p ↦ if is_some (lookup p (id_to_node ds [])) then some p else none
]

abbrev pub is_under : String → Option String → Bool
is_under id none = false
is_under id (some p) = p === id

-- The lists of the elements, one after the other.
abbrev pub flat_map : (Department → List Row) → List Department → List Row
flat_map f [] = []
flat_map f (n ∷ ns) = f n ++ flat_map f ns

-- The row of a department, and what is below it unless it is collapsed.
abbrev pub row_and_below : List String → ℕ → (String → List Row) → Department → List Row
row_and_below collapsed depth below n =
    (n, depth) ∷ (if member n.id collapsed then [] else below n.id)

module _ (name_le : String → String → Bool) where
  abbrev pub by_name : List Department → List Department
  by_name ds = sort_by (λ a b. name_le a.name b.name) ds

  -- `roots`
  unfoldable pub roots : List Department → List Department
  roots ds = by_name (filter_by (λ d. not (is_some (parent_in ds d))) (nodes ds))

  -- `node.children`
  unfoldable pub children : List Department → String → List Department
  children ds id = by_name (filter_by (λ d. is_under id (parent_in ds d)) (nodes ds))

  -- `walk`, at most `fuel` levels deep.
  unfoldable pub walk : List Department → List String → ℕ → ℕ → List Department → List Row
  walk ds collapsed zero depth ns = []
  walk ds collapsed (suc fuel) depth ns =
      flat_map
        (row_and_below collapsed depth (λ id. walk ds collapsed fuel (suc depth) (children ds id)))
        ns

  -- `renderRows` of the tree, and of the flat list while a text is searched.
  unfoldable pub tree_rows : ℕ → List String → List Department → List Row
  tree_rows fuel collapsed ds = walk ds collapsed fuel 0 (roots ds)

  unfoldable pub flat_rows : List Department → List Row
  flat_rows ds = map (λ d. (d, 0)) (by_name ds)

-- `toggle`
unfoldable pub toggle : String → List String → List String
toggle id collapsed =
    if member id collapsed then filter_by (λ x. not (x === id)) collapsed else id ∷ collapsed

-- `stats`
pub record Stats : Type 0 where
  pub total : ℕ
  pub active : ℕ
  pub branches_covered : ℕ

abbrev distinct : List String → List String
distinct [] = []
distinct (x ∷ xs) = let rest = distinct xs in if member x rest then rest else x ∷ rest

unfoldable pub stats : List Department → Stats
stats ds =
    let kept = filter_by Department.is_active ds in
    record {
      total = length ds;
      active = length kept;
      branches_covered = length (distinct (map Department.branch_id kept));
    }
