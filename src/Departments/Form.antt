-- ===== src/Departments/Form.antt =====
-- The form of a department (admin-web/src/pages/app/departments/DepartmentForm.tsx). `trim` is the
-- platform's.
use hr_profi_uz.Users.Form.{text_or_empty, full_text}
use hr_profi_uz.Common.{Option, String, Bool}

pub record Department : Type 0 where
  pub id : String
  pub company_id : String
  pub branch_id : String
  pub parent_id : Option String
  pub name : String
  pub code : Option String
  pub description : Option String
  pub is_active : Bool

pub record DepartmentFormValue : Type 0 where
  pub branch_id : String
  pub parent_id : String
  pub name : String
  pub code : String
  pub description : String

abbrev pub empty_department_form : DepartmentFormValue
empty_department_form = record {
  branch_id = "";
  parent_id = "";
  name = "";
  code = "";
  description = "";
}

unfoldable pub department_to_form : Department → DepartmentFormValue
department_to_form d = record {
  branch_id = d.branch_id;
  parent_id = text_or_empty d.parent_id;
  name = d.name;
  code = text_or_empty d.code;
  description = text_or_empty d.description;
}

pub record DepartmentCreate : Type 0 where
  pub branch_id : String
  pub parent_id : Option String
  pub name : String
  pub code : Option String
  pub description : Option String

pub record DepartmentUpdate : Type 0 where
  pub parent_id : Option String
  pub name : String
  pub code : Option String
  pub description : Option String

module _ (trim : String → String) where
  unfoldable pub department_form_to_create : DepartmentFormValue → DepartmentCreate
  department_form_to_create f = record {
    branch_id = f.branch_id;
    parent_id = full_text f.parent_id;
    name = trim f.name;
    code = full_text (trim f.code);
    description = full_text (trim f.description);
  }

  unfoldable pub department_form_to_update : DepartmentFormValue → DepartmentUpdate
  department_form_to_update f = record {
    parent_id = full_text f.parent_id;
    name = trim f.name;
    code = full_text (trim f.code);
    description = full_text (trim f.description);
  }

-- Another branch drops the parent.
unfoldable pub on_branch_change : String → DepartmentFormValue → DepartmentFormValue
on_branch_change id f = record f { branch_id = id; parent_id = "" }
