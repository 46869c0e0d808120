-- ===== src/Routes/Tests.antt =====
-- The routes at concrete sessions.
use hr_profi_uz.Routes.Steps.{MayShow}
use hr_profi_uz.Routes.Menu.{branch_manager_nav}
use hr_profi_uz.Common.{All, ◌≡◌, false, some, none, ◌∷◌, true, [], ◌⊎◌, refl}
use hr_profi_uz.Routes.Table.{Page, login_page, branch_dashboard}
use hr_profi_uz.Routes.Guard.{at_path, follow, go, shows, blank}
use hr_profi_uz.Users.Form.{Role, User, UserStatus, Language}
use hr_profi_uz.Routes.Login.{answers}
use hr_profi_uz.Routes.Router.{first_fit, first_fit-listed, first_fit-only}
use hr_profi_uz.Routes.Landing.{signed_in_lands, redirects_end}
use hr_profi_uz.Routes.Menus.{menu_opens}
use hr_profi_uz.Routes.SignIn.{sign_in, rejected_sign_in}
use hr_profi_uz.Session.{Session, empty, TokenPair, set_tokens}

abbrev person : Role → User
person role = record {
  id = "u1";
  company_id = none;
  branch_id = none;
  username = "aziza";
  email = none;
  role = role;
  status = UserStatus.active;
  full_name = none;
  phone = none;
  language = Language.uz;
  is_active = true;
  two_factor_enabled = false;
  created_at = "2024-01-01";
  updated_at = "2024-01-01";
}

abbrev manager : User
manager = person Role.branch_manager

abbrev session : Session User
session = record { access_token = some "a1"; refresh_token = some "r1"; user = some manager }

abbrev loading : Session User
loading = record { access_token = some "a1"; refresh_token = some "r1"; user = none }

abbrev pair : TokenPair
pair = record { access_token = "a2"; refresh_token = "r2" }

-- A manager who opens a page of the owner sees the branch's dashboard.
manager_run :
    follow first_fit 3 session (go ("owner" ∷ "companies" ∷ "c1" ∷ "edit" ∷ []))
    ≡ some (shows branch_dashboard)
unfolding first_fit
manager_run = refl

signed_in_lands_example :
    (p : Page) × (follow first_fit 3 session (go ("owner" ∷ "plans" ∷ [])) ≡ some (shows p))
    × MayShow Role.branch_manager p
signed_in_lands_example =
    signed_in_lands first_fit first_fit-listed first_fit-only session manager
      ("owner" ∷ "plans" ∷ []) refl refl

redirects_end_example :
    ((p : Page) × (follow first_fit 3 loading (go ("no" ∷ [])) ≡ some (shows p)))
    ⊎ (follow first_fit 3 loading (go ("no" ∷ [])) ≡ some blank)
redirects_end_example = redirects_end first_fit first_fit-listed first_fit-only loading ("no" ∷ [])

menu_opens_example :
    All (λ path. (p : Page) × (at_path first_fit session path ≡ shows p)) branch_manager_nav
menu_opens_example = menu_opens first_fit first_fit-only session manager refl refl

rejected_sign_in_example :
    (at_path first_fit (set_tokens pair (empty {U = User})) ("login" ∷ []) ≡ go [])
    × (follow first_fit 2
          (answers (sign_in pair (person Role.employee_role) (true ∷ []) (true ∷ [])) empty)
          (go ("app" ∷ []))
        ≡ some (shows login_page))
rejected_sign_in_example =
    rejected_sign_in first_fit first_fit-listed first_fit-only pair (person Role.employee_role)
      (true ∷ []) (true ∷ []) empty ("app" ∷ []) refl refl
