-- ===== src/Employees/Tests.antt =====
-- The form of an employee at concrete values.
use hr_profi_uz.Staff.{Employee, fixed_shift, hourly, male}
use hr_profi_uz.Employees.Form.{employee_to_form, employee_form_to_update, clear_dept}
use hr_profi_uz.Employees.Saving.{opened_form_department}
use hr_profi_uz.Common.{String, none, some, true, ◌≡◌, refl, []}

-- An employee by the hour who has an old monthly salary.
abbrev worker : Employee
worker = record {
  id = "e1";
  company_id = "c1";
  branch_id = some "b1";
  department_id = some "d1";
  user_id = none;
  employee_code = "7";
  full_name = "Ali";
  photo_url = none;
  phone = some "+998";
  email = none;
  position = some "cook";
  hire_date = some "2024-01-01";
  birth_date = none;
  gender = some male;
  passport = none;
  inn = none;
  address = none;
  emergency_contact_name = none;
  emergency_contact_phone = none;
  emergency_contact_relation = none;
  bank_card_number = none;
  bank_name = none;
  notes = none;
  work_type = fixed_shift;
  shift_template_id = some "day";
  salary_type = hourly;
  base_salary = some "3000000";
  hourly_rate = some "20000";
  daily_rate = none;
  overtime_multiplier = "1.5";
  is_active = true;
  terminated_at = none;
  created_at = "2024-01-01";
  updated_at = "2024-01-01";
}

-- No text here has blanks around it, and the multiplier is passed on as it is printed.
abbrev as_typed : String → String
as_typed s = s

dropped_run :
    (employee_form_to_update as_typed as_typed (employee_to_form worker)).base_salary ≡ none
unfolding employee_to_form employee_form_to_update
dropped_run = refl

opened_form_department_example :
    (employee_form_to_update as_typed as_typed
      (clear_dept [] (employee_to_form worker))).department_id
    ≡ none
opened_form_department_example =
    opened_form_department as_typed as_typed worker "d1" "b1" [] refl refl refl
