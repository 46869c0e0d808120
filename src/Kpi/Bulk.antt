-- ===== src/Kpi/Bulk.antt =====
-- The assignment of a template to many: admin-web/src/pages/app/kpi/BulkAssignTab.tsx.
use hr_profi_uz.Common.{
  Option, List, String, [], ℕ, if◌then◌else◌, some, is_blank, filter_by, none, Bool, not, ◌===◌,
  ◌++◌, ◌∷◌,
}
use hr_profi_uz.Departments.Picker.{member}

pub data Mode : Type 0 where
  branches departments employees : Mode

pub record Tab : Type 0 where
  pub template_id : String
  pub year : ℕ
  pub month : ℕ
  pub target : String
  pub mode : Mode
  pub picked : List String
  pub skip_existing : Bool

-- A button of the scope
unfoldable pub set_mode : Mode → Tab → Tab
set_mode mode s = record s { mode = mode; picked = [] }

-- `togglePick`
abbrev pub toggled : String → List String → List String
toggled id picked =
    if member id picked then filter_by (λ x. not (x === id)) picked else picked ++ id ∷ []

unfoldable pub toggle_pick : String → Tab → Tab
toggle_pick id s = record s { picked = toggled id s.picked }

pub record BulkPayload : Type 0 where
  pub kpi_template_id : String
  pub year : ℕ
  pub month : ℕ
  pub target : String
  pub skip_existing : Bool
  pub branch_ids : Option (List String)
  pub department_ids : Option (List String)
  pub employee_ids : Option (List String)

abbrev pub only_in : Mode → Mode → List String → Option (List String)
only_in branches branches picked = some picked
only_in departments departments picked = some picked
only_in employees employees picked = some picked
only_in _ _ picked = none

-- `target || tpl?.target_value || "0"`; `template_target` is the chosen template's.
abbrev pub target_of : String → Option String → String
target_of target none = if is_blank target then "0" else target
target_of target (some value) =
    if is_blank target then (if is_blank value then "0" else value) else target

-- `bulkMut`
unfoldable pub bulk_payload : Option String → Tab → BulkPayload
bulk_payload template_target s = record {
  kpi_template_id = s.template_id;
  year = s.year;
  month = s.month;
  target = target_of s.target template_target;
  skip_existing = s.skip_existing;
  branch_ids = only_in branches s.mode s.picked;
  department_ids = only_in departments s.mode s.picked;
  employee_ids = only_in employees s.mode s.picked;
}
