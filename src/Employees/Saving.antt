-- ===== src/Employees/Saving.antt =====
-- What saving an employee's form sends (admin-web/src/pages/app/employees/EmployeeForm.tsx).
use hr_profi_uz.Departments.Form.{Department}
use hr_profi_uz.Users.Form.{full_text, text_or_empty}
use hr_profi_uz.Staff.{Employee}
use hr_profi_uz.Employees.Form.{
  EmployeeUpdate, employee_to_form, employee_form_to_update, monthly_only, hourly_only, daily_only,
  clear_dept, EmployeeFormValue,
}
use hr_profi_uz.Common.{
  String, Option, none, some, [], ◌≡◌, arith, false, is_blank, refl, List, Bool, if◌then◌else◌,
  is_some, any, ◌===◌, find_by, ◌&&◌, ◌∷◌, subst, sym, ◌∙◌, ap, true, not,
}

-- A stored text is missing, or neither blank nor changed by trimming.
abbrev pub IsStored : (String → String) → Option String → Type 0
IsStored trim none = Unit
IsStored trim (some s) = (is_blank s ≡ false) × (trim s ≡ s)

full-or_empty :
    (trim : String → String) (o : Option String)
    → trim "" ≡ ""
    → IsStored trim o
    → (full_text (trim (text_or_empty o)) ≡ o) × (full_text (text_or_empty o) ≡ o)
full-or_empty trim none blank h = (rw blank refl, refl)
full-or_empty trim (some s) blank h = ground (arith, h.0, h.1)

-- The texts of the employee are stored as the form would send them.
pub record IsClean (trim : String → String) (e : Employee) : Type 0 where
  pub full_name_kept : trim e.full_name ≡ e.full_name
  pub photo_url_kept : IsStored trim e.photo_url
  pub position_kept : IsStored trim e.position
  pub phone_kept : IsStored trim e.phone
  pub email_kept : IsStored trim e.email
  pub address_kept : IsStored trim e.address
  pub birth_date_kept : IsStored trim e.birth_date
  pub passport_kept : IsStored trim e.passport
  pub inn_kept : IsStored trim e.inn
  pub emergency_contact_name_kept : IsStored trim e.emergency_contact_name
  pub emergency_contact_phone_kept : IsStored trim e.emergency_contact_phone
  pub emergency_contact_relation_kept : IsStored trim e.emergency_contact_relation
  pub branch_id_kept : IsStored trim e.branch_id
  pub department_id_kept : IsStored trim e.department_id
  pub hire_date_kept : IsStored trim e.hire_date
  pub shift_template_id_kept : IsStored trim e.shift_template_id
  pub base_salary_kept : IsStored trim e.base_salary
  pub hourly_rate_kept : IsStored trim e.hourly_rate
  pub daily_rate_kept : IsStored trim e.daily_rate
  pub bank_card_number_kept : IsStored trim e.bank_card_number
  pub bank_name_kept : IsStored trim e.bank_name
  pub notes_kept : IsStored trim e.notes

module _ {M : Type 0} (trim : String → String) (multiplier : String → M) where
  -- The body that changes nothing but the rates of the other salary types.
  abbrev pub unchanged : Employee → EmployeeUpdate M
  unchanged e = record {
    full_name = e.full_name;
    photo_url = e.photo_url;
    gender = e.gender;
    position = e.position;
    phone = e.phone;
    email = e.email;
    address = e.address;
    birth_date = e.birth_date;
    passport = e.passport;
    inn = e.inn;
    emergency_contact_name = e.emergency_contact_name;
    emergency_contact_phone = e.emergency_contact_phone;
    emergency_contact_relation = e.emergency_contact_relation;
    branch_id = e.branch_id;
    department_id = e.department_id;
    hire_date = e.hire_date;
    work_type = e.work_type;
    shift_template_id = e.shift_template_id;
    salary_type = e.salary_type;
    base_salary = monthly_only e.salary_type e.base_salary;
    hourly_rate = hourly_only e.salary_type e.hourly_rate;
    daily_rate = daily_only e.salary_type e.daily_rate;
    overtime_multiplier = multiplier e.overtime_multiplier;
    bank_card_number = e.bank_card_number;
    bank_name = e.bank_name;
    notes = e.notes;
  }

  -- Saving the form of an employee that was not touched sends the employee's own values, null for
  -- those that are missing, and null for the rates of the other salary types, when its texts are
  -- stored trimmed and not blank.
  untouched_form_keeps_employee :
      (e : Employee)
      → trim "" ≡ ""
      → IsClean trim e
      → employee_form_to_update trim multiplier (employee_to_form e) ≡ unchanged e
  unfolding employee_to_form employee_form_to_update
  untouched_form_keeps_employee e blank h = ground (
    arith,
    h.full_name_kept,
    full-or_empty trim e.photo_url blank h.photo_url_kept,
    full-or_empty trim e.position blank h.position_kept,
    full-or_empty trim e.phone blank h.phone_kept,
    full-or_empty trim e.email blank h.email_kept,
    full-or_empty trim e.address blank h.address_kept,
    full-or_empty trim e.birth_date blank h.birth_date_kept,
    full-or_empty trim e.passport blank h.passport_kept,
    full-or_empty trim e.inn blank h.inn_kept,
    full-or_empty trim e.emergency_contact_name blank h.emergency_contact_name_kept,
    full-or_empty trim e.emergency_contact_phone blank h.emergency_contact_phone_kept,
    full-or_empty trim e.emergency_contact_relation blank h.emergency_contact_relation_kept,
    full-or_empty trim e.branch_id blank h.branch_id_kept,
    full-or_empty trim e.department_id blank h.department_id_kept,
    full-or_empty trim e.hire_date blank h.hire_date_kept,
    full-or_empty trim e.shift_template_id blank h.shift_template_id_kept,
    full-or_empty trim e.base_salary blank h.base_salary_kept,
    full-or_empty trim e.hourly_rate blank h.hourly_rate_kept,
    full-or_empty trim e.daily_rate blank h.daily_rate_kept,
    full-or_empty trim e.bank_card_number blank h.bank_card_number_kept,
    full-or_empty trim e.bank_name blank h.bank_name_kept,
    full-or_empty trim e.notes blank h.notes_kept,
  )

is_some-find_by : (f : Department → Bool) (ds : List Department) → is_some (find_by f ds) ≡ any f ds
is_some-find_by f [] = refl
is_some-find_by f (d ∷ ds) = ground (arith, is_some-find_by f ds)

abbrev sent_dept : String → String → List Department → Option String
sent_dept d b depts = if any (λ x. x.id === d && x.branch_id === b) depts then some d else none

-- The effect's test and its two outcomes, by whether the department is blank and whether it is known.
sent_after :
    (blank found here : Bool) (f : EmployeeFormValue)
    → is_blank f.department_id ≡ blank
    → found ≡ here
    → blank ≡ false
    → full_text
        (if not blank && not found then record f { department_id = "" } else f).department_id
      ≡ (if here then some f.department_id else none)
sent_after true found here f h same full = cc
sent_after false true true f h same full = rw h refl
sent_after false true false f h same full = cc
sent_after false false true f h same full = cc
sent_after false false false f h same full = refl

clear_dept_lem :
    (f : EmployeeFormValue) (depts : List Department)
    → is_blank f.department_id ≡ false
    → full_text (clear_dept depts f).department_id ≡ sent_dept f.department_id f.branch_id depts
unfolding clear_dept
clear_dept_lem f depts full =
    let known = λ (x : Department). x.id === f.department_id && x.branch_id === f.branch_id in
    sent_after (is_blank f.department_id) (is_some (find_by known depts)) (any known depts) f refl
      (is_some-find_by known depts) full

module _ {M : Type 0} (trim : String → String) (multiplier : String → M) where
  -- After the form of an employee with a branch, and with a department whose id is not blank, was
  -- opened, and the effect ran over the departments loaded so far, saving sends the department if it
  -- is loaded under the branch, and null if it is not.
  pub opened_form_department :
      (e : Employee) (d b : String) (depts : List Department)
      → e.department_id ≡ some d
      → e.branch_id ≡ some b
      → is_blank d ≡ false
      → (employee_form_to_update trim multiplier
          (clear_dept depts (employee_to_form e))).department_id
        ≡ (if any (λ x. x.id === d && x.branch_id === b) depts then some d else none)
  unfolding employee_to_form employee_form_to_update clear_dept
  opened_form_department e d b depts h k full =
      let f = employee_to_form e in
      let of_dept : f.department_id ≡ d = ground (arith, h) in
      let of_branch : f.branch_id ≡ b = ground (arith, k) in
      let filled : is_blank f.department_id ≡ false =
        subst (λ z. is_blank z ≡ false) (sym of_dept) full in
      clear_dept_lem f depts filled
      ∙ ap (λ (z : String). sent_dept z f.branch_id depts) of_dept
      ∙ ap (λ (z : String). sent_dept d z depts) of_branch
