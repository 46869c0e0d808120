-- ===== src/Routes/Guard.antt =====
-- What the panel does at a path: admin-web/src/components/ProtectedRoute.tsx, and RootRedirect,
-- DashboardSwitcher and the routes of admin-web/src/App.tsx. `pick` is the choice that react-router
-- makes among the routes of the table.
use hr_profi_uz.Routes.Table.{
  Page, Element, Route, routes, open_page, guarded, root_redirect, branch_dashboard, app_dashboard,
  dashboard_switcher,
}
use hr_profi_uz.Users.Form.{Role, User}
use hr_profi_uz.Session.{Session, truthy}
use hr_profi_uz.Common.{
  String, List, [], ◌∷◌, Option, none, some, Bool, true, false, if◌then◌else◌, ℕ, zero, suc, any,
}

-- A page, nothing on the screen, or `<Navigate replace>`.
pub data Step : Type 0 where
  shows : Page → Step
  blank : Step
  go : List String → Step

abbrev pub is_owner : Role → Bool
is_owner Role.owner = true
is_owner _ = false

abbrev pub is_branch_manager : Role → Bool
is_branch_manager Role.branch_manager = true
is_branch_manager _ = false

-- `===` on roles.
abbrev pub same_role : Role → Role → Bool
same_role Role.owner Role.owner = true
same_role Role.company_admin Role.company_admin = true
same_role Role.hr_manager Role.hr_manager = true
same_role Role.branch_manager Role.branch_manager = true
same_role Role.employee_role Role.employee_role = true
same_role Role.device_role Role.device_role = true
same_role _ _ = false

abbrev pub home : Role → List String
home r = if is_owner r then "owner" ∷ [] else "app" ∷ []

-- `DashboardSwitcher`
abbrev pub dashboard : Option User → Page
dashboard none = app_dashboard
dashboard (some u) = if is_branch_manager u.role then branch_dashboard else app_dashboard

abbrev pub is_switcher : Page → Bool
is_switcher dashboard_switcher = true
is_switcher _ = false

-- The page that an element of the table puts on the screen.
abbrev pub opened : Option User → Page → Page
opened u page = if is_switcher page then dashboard u else page

-- `RootRedirect`
abbrev redirect_user : Option User → Step
redirect_user none = blank
redirect_user (some u) = go (home u.role)

abbrev redirect_root : Session User → Step
redirect_root s = if truthy s.access_token then redirect_user s.user else go ("login" ∷ [])

-- `allow && user && !allow.includes(user.role)`
abbrev refuses : Option (List Role) → Option User → Option Role
refuses none u = none
refuses (some allow) none = none
refuses (some allow) (some u) = if any (same_role u.role) allow then none else some u.role

abbrev admitted : Option Role → Option User → Page → Step
admitted none u page = shows (opened u page)
admitted (some r) u page = go (home r)

-- `ProtectedRoute`
abbrev protected_route : Option (List Role) → Session User → Page → Step
protected_route allow s page =
    if truthy s.access_token then admitted (refuses allow s.user) s.user page else go ("login" ∷ [])

-- `LoginPage` leaves for "/" as soon as there is a token; the other open pages stay.
abbrev pub at_element : Session User → Element → Step
at_element s (open_page page) = if truthy s.access_token then go [] else shows page
at_element s (guarded allow page) = protected_route allow s page
at_element s root_redirect = redirect_root s

-- The element of `*`
abbrev pub or_splat : Option Route → Element
or_splat none = root_redirect
or_splat (some r) = r.element

module _ (pick : List Route → List String → Option Route) where
  abbrev pub at_path : Session User → List String → Step
  at_path s path = at_element s (or_splat (pick routes path))

  -- The redirects from a path, at most `fuel` of them: where they end.
  abbrev pub follow : ℕ → Session User → Step → Option Step
  follow fuel s (shows page) = some (shows page)
  follow fuel s blank = some blank
  follow zero s (go path) = none
  follow (suc fuel) s (go path) = follow fuel s (at_path s path)
