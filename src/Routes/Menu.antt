-- ===== src/Routes/Menu.antt =====
-- The menus of the panel: where their items lead (admin-web/src/components/Layout.tsx). Sections,
-- labels and icons are left out.
use hr_profi_uz.Users.Form.{User}
use hr_profi_uz.Common.{List, Option, String, some, ◌∷◌, if◌then◌else◌, [], none}
use hr_profi_uz.Routes.Guard.{is_owner, is_branch_manager}

abbrev pub owner_nav : List (List String)
owner_nav = ("owner" ∷ []) ∷ ("owner" ∷ "companies" ∷ []) ∷ ("owner" ∷ "plans" ∷ []) ∷ []

abbrev pub branch_manager_nav : List (List String)
branch_manager_nav =
    ("app" ∷ [])
    ∷ ("app" ∷ "employees" ∷ [])
    ∷ ("app" ∷ "shifts" ∷ [])
    ∷ ("app" ∷ "attendance" ∷ [])
    ∷ ("app" ∷ "leaves" ∷ [])
    ∷ ("app" ∷ "kpi" ∷ [])
    ∷ ("app" ∷ "notifications" ∷ [])
    ∷ ("app" ∷ "reports" ∷ [])
    ∷ []

abbrev pub company_nav : List (List String)
company_nav =
    ("app" ∷ [])
    ∷ ("app" ∷ "branches" ∷ [])
    ∷ ("app" ∷ "departments" ∷ [])
    ∷ ("app" ∷ "employees" ∷ [])
    ∷ ("app" ∷ "shifts" ∷ [])
    ∷ ("app" ∷ "attendance" ∷ [])
    ∷ ("app" ∷ "leaves" ∷ [])
    ∷ ("app" ∷ "salary" ∷ [])
    ∷ ("app" ∷ "kpi" ∷ [])
    ∷ ("app" ∷ "devices" ∷ [])
    ∷ ("app" ∷ "kiosks" ∷ [])
    ∷ ("app" ∷ "notifications" ∷ [])
    ∷ ("app" ∷ "telegram" ∷ [])
    ∷ ("app" ∷ "users" ∷ [])
    ∷ ("app" ∷ "audit" ∷ [])
    ∷ ("app" ∷ "reports" ∷ [])
    ∷ ("app" ∷ "settings" ∷ [])
    ∷ []

-- `sections`
abbrev pub nav : Option User → List (List String)
nav none = company_nav
nav (some u) =
    if is_owner u.role
    then owner_nav
    else (if is_branch_manager u.role then branch_manager_nav else company_nav)
