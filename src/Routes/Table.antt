-- ===== src/Routes/Table.antt =====
-- The table of routes (admin-web/src/App.tsx). A path is the list of its segments, `:id` is `param`.
-- The splat route `*` is not in the table: it is what is left when no route of the table is picked.
use hr_profi_uz.Users.Form.{Role}
use hr_profi_uz.Common.{
  String, List, [], ◌∷◌, ◌++◌, map, Option, none, some, Bool, true, false, ◌===◌, ◌&&◌,
}

pub data Page : Type 0 where
  login_page owner_dashboard companies_list_page company_create_page : Page
  company_edit_page plans_page dashboard_switcher branches_list_page : Page
  branch_create_page branch_edit_page departments_list_page department_create_page : Page
  department_edit_page employees_list_page employee_create_page employee_edit_page : Page
  shifts_hub_page template_create_page template_edit_page attendance_hub_page : Page
  salary_hub_page employee_breakdown_page transaction_create_page leaves_hub_page : Page
  leave_create_page leave_edit_page leave_type_create_page leave_type_edit_page : Page
  leave_adjustment_create_page kpi_hub_page devices_list_page device_create_page : Page
  device_edit_page kiosks_list_page kiosk_create_page users_list_page : Page
  user_create_page user_edit_page settings_hub_page notifications_page : Page
  audit_logs_page reports_hub_page telegram_page branch_dashboard app_dashboard : Page

pub data Segment : Type 0 where
  lit : String → Segment
  param : Segment

-- What stands at a route: a page, a page under `<ProtectedRoute allow=…>`, or the redirect.
pub data Element : Type 0 where
  open_page : Page → Element
  guarded : Option (List Role) → Page → Element
  root_redirect : Element

pub record Route : Type 0 where
  pub path : List Segment
  pub element : Element

abbrev pub under : String → Option (List Role) → List Segment × Page → Route
under base allow row = record { path = lit base ∷ row.0; element = guarded allow row.1 }

abbrev pub owner_rows : List (List Segment × Page)
owner_rows =
    ([], owner_dashboard)
    ∷ (lit "companies" ∷ [], companies_list_page)
    ∷ (lit "companies" ∷ lit "new" ∷ [], company_create_page)
    ∷ (lit "companies" ∷ param ∷ lit "edit" ∷ [], company_edit_page)
    ∷ (lit "plans" ∷ [], plans_page)
    ∷ []

abbrev pub app_rows : List (List Segment × Page)
app_rows =
    ([], dashboard_switcher)
    ∷ (lit "branches" ∷ [], branches_list_page)
    ∷ (lit "branches" ∷ lit "new" ∷ [], branch_create_page)
    ∷ (lit "branches" ∷ param ∷ lit "edit" ∷ [], branch_edit_page)
    ∷ (lit "departments" ∷ [], departments_list_page)
    ∷ (lit "departments" ∷ lit "new" ∷ [], department_create_page)
    ∷ (lit "departments" ∷ param ∷ lit "edit" ∷ [], department_edit_page)
    ∷ (lit "employees" ∷ [], employees_list_page)
    ∷ (lit "employees" ∷ lit "new" ∷ [], employee_create_page)
    ∷ (lit "employees" ∷ param ∷ lit "edit" ∷ [], employee_edit_page)
    ∷ (lit "shifts" ∷ [], shifts_hub_page)
    ∷ (lit "shifts" ∷ lit "templates" ∷ lit "new" ∷ [], template_create_page)
    ∷ (lit "shifts" ∷ lit "templates" ∷ param ∷ lit "edit" ∷ [], template_edit_page)
    ∷ (lit "attendance" ∷ [], attendance_hub_page)
    ∷ (lit "salary" ∷ [], salary_hub_page)
    ∷ (lit "salary" ∷ lit "employee" ∷ param ∷ [], employee_breakdown_page)
    ∷ (lit "salary" ∷ lit "transactions" ∷ lit "new" ∷ [], transaction_create_page)
    ∷ (lit "leaves" ∷ [], leaves_hub_page)
    ∷ (lit "leaves" ∷ lit "new" ∷ [], leave_create_page)
    ∷ (lit "leaves" ∷ param ∷ lit "edit" ∷ [], leave_edit_page)
    ∷ (lit "leaves" ∷ lit "types" ∷ lit "new" ∷ [], leave_type_create_page)
    ∷ (lit "leaves" ∷ lit "types" ∷ param ∷ lit "edit" ∷ [], leave_type_edit_page)
    ∷ (lit "leaves" ∷ lit "balances" ∷ lit "new" ∷ [], leave_adjustment_create_page)
    ∷ (lit "kpi" ∷ [], kpi_hub_page)
    ∷ (lit "devices" ∷ [], devices_list_page)
    ∷ (lit "devices" ∷ lit "new" ∷ [], device_create_page)
    ∷ (lit "devices" ∷ param ∷ lit "edit" ∷ [], device_edit_page)
    ∷ (lit "kiosks" ∷ [], kiosks_list_page)
    ∷ (lit "kiosks" ∷ lit "new" ∷ [], kiosk_create_page)
    ∷ (lit "users" ∷ [], users_list_page)
    ∷ (lit "users" ∷ lit "new" ∷ [], user_create_page)
    ∷ (lit "users" ∷ param ∷ lit "edit" ∷ [], user_edit_page)
    ∷ (lit "settings" ∷ [], settings_hub_page)
    ∷ (lit "notifications" ∷ [], notifications_page)
    ∷ (lit "audit" ∷ [], audit_logs_page)
    ∷ (lit "reports" ∷ [], reports_hub_page)
    ∷ (lit "telegram" ∷ [], telegram_page)
    ∷ []

-- The routes after those of the owner.
abbrev pub app_routes : List Route
app_routes = map (under "app" none) app_rows ++ record { path = []; element = root_redirect } ∷ []

abbrev pub routes : List Route
routes =
    record { path = lit "login" ∷ []; element = open_page login_page }
      ∷ map (under "owner" (some (Role.owner ∷ []))) owner_rows
    ++ app_routes

-- Does the pattern of a route fit the segments of a path?
abbrev pub fits : List Segment → List String → Bool
fits [] [] = true
fits [] (x ∷ xs) = false
fits (s ∷ ss) [] = false
fits (lit t ∷ ss) (x ∷ xs) = (x === t) && fits ss xs
fits (param ∷ ss) (x ∷ xs) = fits ss xs
