-- ===== src/Departments/Tests.antt =====
-- The theorems on departments at a concrete company.
use hr_profi_uz.Departments.Listing.{
  tree_rows, toggle, nodes, id_to_node, walk, roots, children, Row,
}
use hr_profi_uz.Departments.Occurs.{Occurs, here, there}
use hr_profi_uz.Departments.Rows.{Chain, root, child, department_shown}
use hr_profi_uz.Departments.Hidden.{circle_hidden, IsClosed}
use hr_profi_uz.Departments.Form.{Department}
use hr_profi_uz.Departments.Picker.{member, forbidden_ids, parent_options, children_of}
use hr_profi_uz.Departments.Cycles.{
  Below, forbidden_ids_exact, IsGoodParent, parent_options_acyclic,
}
use hr_profi_uz.Common.{
  String, Option, Bool, none, some, true, [], ◌∷◌, List, ◌≡◌, ◌↔◌, refl, All, map, lookup, insert,
  sort_by, ◌===◌, false, arith, ◌||◌, insert_by,
}

abbrev department : String → Option String → Department
department id parent = record {
  id = id;
  company_id = "c1";
  branch_id = "b1";
  parent_id = parent;
  name = id;
  code = none;
  description = none;
  is_active = true;
}

-- `sales` over `team` over `desk`, and two departments that stand below one another.
abbrev company : List Department
company =
    department "sales" none
    ∷ department "team" (some "sales")
    ∷ department "desk" (some "team")
    ∷ department "left" (some "right")
    ∷ department "right" (some "left")
    ∷ []

-- Any order serves.
abbrev any_order : String → String → Bool
any_order a b = true

forbidden_run : forbidden_ids company (some "team") ≡ "desk" ∷ "team" ∷ []
unfolding forbidden_ids lookup children_of insert
forbidden_run = refl

circle_run : forbidden_ids company (some "left") ≡ "right" ∷ "left" ∷ []
unfolding forbidden_ids lookup children_of insert
circle_run = refl

options_run :
    map Department.id (parent_options any_order company "b1" (some "team"))
    ≡ "sales" ∷ "left" ∷ "right" ∷ []
unfolding parent_options lookup children_of insert sort_by
options_run = refl

forbidden_ids_exact_example :
    Below company "team" "desk" ↔ (member "desk" (forbidden_ids company (some "team")) ≡ true)
forbidden_ids_exact_example = forbidden_ids_exact company "team" "desk" refl

parent_options_acyclic_example :
    All
      (IsGoodParent any_order company "b1" "team")
      (parent_options any_order company "b1" (some "team"))
parent_options_acyclic_example = parent_options_acyclic any_order company "b1" "team" refl

-- The two departments of the circle are not in the tree.
rows_run :
    map (λ (row : Row). row.0.id) (tree_rows any_order 5 [] company)
    ≡ "sales" ∷ "team" ∷ "desk" ∷ []
unfolding tree_rows walk roots children id_to_node member lookup insert sort_by insert_by
rows_run = refl

toggle_run : toggle "team" (toggle "team" ("desk" ∷ [])) ≡ "desk" ∷ []
unfolding toggle member
toggle_run = refl

team-Chain : Chain company 1 (department "team" (some "sales"))
unfolding id_to_node lookup insert
team-Chain =
    child 0 (department "sales" none) (department "team" (some "sales"))
      (root (department "sales" none) (here _) refl) (there _ _ (here _)) refl

department_shown_example :
    Occurs (department "team" (some "sales"), 1) (tree_rows any_order 4 [] company)
department_shown_example =
    department_shown any_order company 1 4 (department "team" (some "sales")) team-Chain
      (omega arith)

abbrev in_circle : String → Bool
in_circle id = id === "left" || id === "right"

company-IsClosed : All (IsClosed any_order company in_circle) (nodes company)
unfolding id_to_node lookup insert
company-IsClosed = (
  (λ h. ground (arith, h)),
  (
    (λ h. ground (arith, h)),
    ((λ h. ground (arith, h)), ((λ h. ("right", refl, refl)), ((λ h. ("left", refl, refl)), tt))),
  ),
)

circle_hidden_example :
    All (λ row. in_circle row.0.id ≡ false) (tree_rows any_order 9 ("sales" ∷ []) company)
circle_hidden_example = circle_hidden any_order company in_circle 9 ("sales" ∷ []) company-IsClosed
