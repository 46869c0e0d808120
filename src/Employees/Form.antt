-- ===== src/Employees/Form.antt =====
-- The form of an employee (admin-web/src/pages/app/employees/EmployeeForm.tsx). `trim` is the platform's,
-- and `multiplier` is `Number(text) || 1.5` of its numbers.
use hr_profi_uz.Staff.{
  Employee, Gender, WorkType, fixed_shift, SalaryType, monthly, hourly, daily, kpi_based,
}
use hr_profi_uz.Departments.Form.{Department}
use hr_profi_uz.Users.Form.{text_or_empty, full_text}
use hr_profi_uz.Common.{
  String, Option, none, some, Bool, false, List, [], not, ◌===◌, ◌&&◌, is_blank, is_some,
  if◌then◌else◌, filter_by, find_by,
}

-- The gender `""` is `none`.
pub record EmployeeFormValue : Type 0 where
  pub employee_code : String
  pub full_name : String
  pub photo_url : String
  pub gender : Option Gender
  pub position : String
  pub phone : String
  pub email : String
  pub address : String
  pub birth_date : String
  pub passport : String
  pub inn : String
  pub emergency_contact_name : String
  pub emergency_contact_phone : String
  pub emergency_contact_relation : String
  pub branch_id : String
  pub department_id : String
  pub hire_date : String
  pub work_type : WorkType
  pub shift_template_id : String
  pub salary_type : SalaryType
  pub base_salary : String
  pub hourly_rate : String
  pub daily_rate : String
  pub overtime_multiplier : String
  pub bank_card_number : String
  pub bank_name : String
  pub notes : String
  pub create_login : Bool
  pub login_username : String
  pub login_password : String

abbrev pub empty_employee_form : EmployeeFormValue
empty_employee_form = record {
  employee_code = "";
  full_name = "";
  photo_url = "";
  gender = none;
  position = "";
  phone = "";
  email = "";
  address = "";
  birth_date = "";
  passport = "";
  inn = "";
  emergency_contact_name = "";
  emergency_contact_phone = "";
  emergency_contact_relation = "";
  branch_id = "";
  department_id = "";
  hire_date = "";
  work_type = fixed_shift;
  shift_template_id = "";
  salary_type = monthly;
  base_salary = "";
  hourly_rate = "";
  daily_rate = "";
  overtime_multiplier = "1.5";
  bank_card_number = "";
  bank_name = "";
  notes = "";
  create_login = false;
  login_username = "";
  login_password = "";
}

unfoldable pub employee_to_form : Employee → EmployeeFormValue
employee_to_form e = record {
  employee_code = e.employee_code;
  full_name = e.full_name;
  photo_url = text_or_empty e.photo_url;
  gender = e.gender;
  position = text_or_empty e.position;
  phone = text_or_empty e.phone;
  email = text_or_empty e.email;
  address = text_or_empty e.address;
  birth_date = text_or_empty e.birth_date;
  passport = text_or_empty e.passport;
  inn = text_or_empty e.inn;
  emergency_contact_name = text_or_empty e.emergency_contact_name;
  emergency_contact_phone = text_or_empty e.emergency_contact_phone;
  emergency_contact_relation = text_or_empty e.emergency_contact_relation;
  branch_id = text_or_empty e.branch_id;
  department_id = text_or_empty e.department_id;
  hire_date = text_or_empty e.hire_date;
  work_type = e.work_type;
  shift_template_id = text_or_empty e.shift_template_id;
  salary_type = e.salary_type;
  base_salary = text_or_empty e.base_salary;
  hourly_rate = text_or_empty e.hourly_rate;
  daily_rate = text_or_empty e.daily_rate;
  overtime_multiplier = e.overtime_multiplier;
  bank_card_number = text_or_empty e.bank_card_number;
  bank_name = text_or_empty e.bank_name;
  notes = text_or_empty e.notes;
  create_login = false;
  login_username = "";
  login_password = "";
}

-- The rate of another salary type is not sent.
abbrev pub monthly_only : SalaryType → Option String → Option String
monthly_only monthly rate = rate
monthly_only hourly rate = none
monthly_only daily rate = none
monthly_only kpi_based rate = none

abbrev pub hourly_only : SalaryType → Option String → Option String
hourly_only monthly rate = none
hourly_only hourly rate = rate
hourly_only daily rate = none
hourly_only kpi_based rate = none

abbrev pub daily_only : SalaryType → Option String → Option String
daily_only monthly rate = none
daily_only hourly rate = none
daily_only daily rate = rate
daily_only kpi_based rate = none

-- The login that a new employee is given.
pub record Login : Type 0 where
  pub login_username : String
  pub login_password : String

-- A key that is not sent is `none`.
pub record EmployeeCreate (M : Type 0) : Type 0 where
  pub employee_code : String
  pub full_name : String
  pub photo_url : Option String
  pub gender : Option Gender
  pub position : Option String
  pub phone : Option String
  pub email : Option String
  pub address : Option String
  pub birth_date : Option String
  pub passport : Option String
  pub inn : Option String
  pub emergency_contact_name : Option String
  pub emergency_contact_phone : Option String
  pub emergency_contact_relation : Option String
  pub branch_id : Option String
  pub department_id : Option String
  pub hire_date : Option String
  pub work_type : WorkType
  pub shift_template_id : Option String
  pub salary_type : SalaryType
  pub base_salary : Option String
  pub hourly_rate : Option String
  pub daily_rate : Option String
  pub overtime_multiplier : M
  pub bank_card_number : Option String
  pub bank_name : Option String
  pub notes : Option String
  pub create_login : Option Login

-- `null` clears a field.
pub record EmployeeUpdate (M : Type 0) : Type 0 where
  pub full_name : String
  pub photo_url : Option String
  pub gender : Option Gender
  pub position : Option String
  pub phone : Option String
  pub email : Option String
  pub address : Option String
  pub birth_date : Option String
  pub passport : Option String
  pub inn : Option String
  pub emergency_contact_name : Option String
  pub emergency_contact_phone : Option String
  pub emergency_contact_relation : Option String
  pub branch_id : Option String
  pub department_id : Option String
  pub hire_date : Option String
  pub work_type : WorkType
  pub shift_template_id : Option String
  pub salary_type : SalaryType
  pub base_salary : Option String
  pub hourly_rate : Option String
  pub daily_rate : Option String
  pub overtime_multiplier : M
  pub bank_card_number : Option String
  pub bank_name : Option String
  pub notes : Option String

module _ {M : Type 0} (trim : String → String) (multiplier : String → M) where
  unfoldable pub employee_form_to_create : EmployeeFormValue → EmployeeCreate M
  employee_form_to_create f = record {
    employee_code = trim f.employee_code;
    full_name = trim f.full_name;
    photo_url = full_text f.photo_url;
    gender = f.gender;
    position = full_text (trim f.position);
    phone = full_text (trim f.phone);
    email = full_text (trim f.email);
    address = full_text (trim f.address);
    birth_date = full_text f.birth_date;
    passport = full_text (trim f.passport);
    inn = full_text (trim f.inn);
    emergency_contact_name = full_text (trim f.emergency_contact_name);
    emergency_contact_phone = full_text (trim f.emergency_contact_phone);
    emergency_contact_relation = full_text (trim f.emergency_contact_relation);
    branch_id = full_text f.branch_id;
    department_id = full_text f.department_id;
    hire_date = full_text f.hire_date;
    work_type = f.work_type;
    shift_template_id = full_text f.shift_template_id;
    salary_type = f.salary_type;
    base_salary = monthly_only f.salary_type (full_text f.base_salary);
    hourly_rate = hourly_only f.salary_type (full_text f.hourly_rate);
    daily_rate = daily_only f.salary_type (full_text f.daily_rate);
    overtime_multiplier = multiplier f.overtime_multiplier;
    bank_card_number = full_text (trim f.bank_card_number);
    bank_name = full_text (trim f.bank_name);
    notes = full_text (trim f.notes);
    create_login =
        if f.create_login
        then some (record { login_username = f.login_username; login_password = f.login_password })
        else none;
  }

  unfoldable pub employee_form_to_update : EmployeeFormValue → EmployeeUpdate M
  employee_form_to_update f = record {
    full_name = trim f.full_name;
    photo_url = full_text f.photo_url;
    gender = f.gender;
    position = full_text (trim f.position);
    phone = full_text (trim f.phone);
    email = full_text (trim f.email);
    address = full_text (trim f.address);
    birth_date = full_text f.birth_date;
    passport = full_text (trim f.passport);
    inn = full_text (trim f.inn);
    emergency_contact_name = full_text (trim f.emergency_contact_name);
    emergency_contact_phone = full_text (trim f.emergency_contact_phone);
    emergency_contact_relation = full_text (trim f.emergency_contact_relation);
    branch_id = full_text f.branch_id;
    department_id = full_text f.department_id;
    hire_date = full_text f.hire_date;
    work_type = f.work_type;
    shift_template_id = full_text f.shift_template_id;
    salary_type = f.salary_type;
    base_salary = monthly_only f.salary_type (full_text f.base_salary);
    hourly_rate = hourly_only f.salary_type (full_text f.hourly_rate);
    daily_rate = daily_only f.salary_type (full_text f.daily_rate);
    overtime_multiplier = multiplier f.overtime_multiplier;
    bank_card_number = full_text (trim f.bank_card_number);
    bank_name = full_text (trim f.bank_name);
    notes = full_text (trim f.notes);
  }

-- `deptOptions`
unfoldable pub branch_depts : List Department → EmployeeFormValue → List Department
branch_depts depts f =
    if is_blank f.branch_id
    then []
    else filter_by (λ d. d.branch_id === f.branch_id && d.is_active) depts

-- The effect that clears the department.
unfoldable pub clear_dept : List Department → EmployeeFormValue → EmployeeFormValue
clear_dept depts f =
    if not (is_blank f.department_id)
      && not
          (is_some (find_by (λ d. d.id === f.department_id && d.branch_id === f.branch_id) depts))
    then record f { department_id = "" }
    else f
