-- ===== src/Staff.antt =====
-- The employee that the pages of the admin panel share: `Employee` of admin-web/src/lib/types.ts. A date,
-- a time and a decimal number are texts there.
use hr_profi_uz.Common.{String, Option, Bool}

pub data WorkType : Type 0 where
  fixed_shift flexible hybrid : WorkType

pub data SalaryType : Type 0 where
  monthly hourly daily kpi_based : SalaryType

pub data Gender : Type 0 where
  male female other : Gender

pub record Employee : Type 0 where
  pub id : String
  pub company_id : String
  pub branch_id : Option String
  pub department_id : Option String
  pub user_id : Option String
  pub employee_code : String
  pub full_name : String
  pub photo_url : Option String
  pub phone : Option String
  pub email : Option String
  pub position : Option String
  pub hire_date : Option String
  pub birth_date : Option String
  pub gender : Option Gender
  pub passport : Option String
  pub inn : Option String
  pub address : Option String
  pub emergency_contact_name : Option String
  pub emergency_contact_phone : Option String
  pub emergency_contact_relation : Option String
  pub bank_card_number : Option String
  pub bank_name : Option String
  pub notes : Option String
  pub work_type : WorkType
  pub shift_template_id : Option String
  pub salary_type : SalaryType
  pub base_salary : Option String
  pub hourly_rate : Option String
  pub daily_rate : Option String
  pub overtime_multiplier : String
  pub is_active : Bool
  pub terminated_at : Option String
  pub created_at : String
  pub updated_at : String
