-- ===== src/Routes/Guarded.antt =====
-- How the routes of the panel are guarded (admin-web/src/App.tsx).
use hr_profi_uz.Users.Form.{Role}
use hr_profi_uz.Common.{
  Bool, All, List, ◌≡◌, String, true, ◌∷◌, some, Option, false, arith, map, [], ◌++◌, none, not,
  refl, every-All,
}
use hr_profi_uz.Routes.Table.{
  owner_rows, app_rows, app_routes, under, Route, Page, Element, routes, open_page, Segment,
  login_page, root_redirect, guarded,
}

-- The pages of the platform's owner.
abbrev pub is_owner_page : Page → Bool
is_owner_page Page.owner_dashboard = true
is_owner_page Page.companies_list_page = true
is_owner_page Page.company_create_page = true
is_owner_page Page.company_edit_page = true
is_owner_page Page.plans_page = true
is_owner_page _ = false

-- How the elements of the table are guarded.
pub data Guarded : Element → Type 0 where
  sign_in : Guarded (open_page login_page)
  redirect : Guarded root_redirect
  for_owner : (p : Page) → is_owner_page p ≡ true → Guarded (guarded (some (Role.owner ∷ [])) p)
  for_all : (p : Page) → is_owner_page p ≡ false → Guarded (guarded none p)

abbrev Row : Type 0
Row = List Segment × Page

under-All :
    (P : Route → Type 0) (base : String) (allow : Option (List Role)) (q : Row → Bool)
    → ((row : Row) → q row ≡ true → P (under base allow row))
    → (rows : List Row) (rest : List Route) → All (λ row. q row ≡ true) rows
    → All P rest
    → All P (map (under base allow) rows ++ rest)
under-All P base allow q f [] rest h hs = hs
under-All P base allow q f (row ∷ rows) rest (h, t) hs =
    (f row h, under-All P base allow q f rows rest t hs)

pub routes-Guarded : All (λ r. Guarded r.element) routes
routes-Guarded = (
  sign_in,
  under-All (λ r. Guarded r.element) "owner" (some (Role.owner ∷ [])) (λ row. is_owner_page row.1)
      (λ row h. for_owner row.1 h) owner_rows app_routes
      (every-All (λ row. is_owner_page row.1) owner_rows refl)
      (under-All (λ r. Guarded r.element) "app" none (λ row. not (is_owner_page row.1))
        (λ row h. for_all row.1 (ground (arith, h))) app_rows
        (record { path = []; element = root_redirect } ∷ [])
        (every-All (λ row. not (is_owner_page row.1)) app_rows refl) (redirect, tt)),
)
