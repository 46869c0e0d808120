-- ===== src/Routes/Menus.antt =====
-- Where the items of the menus lead (admin-web/src/components/Layout.tsx).
use hr_profi_uz.Routes.Guard.{same_role, at_element, at_path, shows, opened, is_branch_manager}
use hr_profi_uz.Routes.Steps.{role-cases}
use hr_profi_uz.Routes.Menu.{nav, owner_nav, branch_manager_nav, company_nav}
use hr_profi_uz.Users.Form.{User, Role}
use hr_profi_uz.Session.{Session, truthy}
use hr_profi_uz.Common.{
  List, Bool, All, String, Option, ◌≡◌, false, filter_by, ◌∷◌, true, [], some, arith, any, refl,
  inl, none, All_mono, inr, Bool-cases, subst, sym, every-All,
}
use hr_profi_uz.Routes.Table.{Route, routes, fits, Element, open_page, guarded, Page, root_redirect}

-- A guard that lets the role through.
abbrev lets_in : Role → Element → Bool
lets_in r (open_page p) = false
lets_in r (guarded none p) = true
lets_in r (guarded (some allow) p) = any (same_role r) allow
lets_in r root_redirect = false

abbrev only : (Element → Bool) → List Route → Bool
only f [] = false
only f (r ∷ []) = f r.element
only f (r ∷ _ ∷ _) = false

only-single :
    (f : Element → Bool) (rs : List Route)
    → only f rs ≡ true
    → (r : Route) × (rs ≡ r ∷ []) × (f r.element ≡ true)
only-single f [] h = ground (arith, h)
only-single f (r ∷ []) h = (r, refl, h)
only-single f (r ∷ _ ∷ _) h = ground (arith, h)

let_in_shows :
    (s : Session User) (u : User) (e : Element)
    → truthy s.access_token ≡ true
    → s.user ≡ some u
    → lets_in u.role e ≡ true
    → (p : Page) × (at_element s e ≡ shows p)
let_in_shows s u (open_page p) ht hu h = ground (arith, h)
let_in_shows s u (guarded none p) ht hu h = (opened s.user p, rw ht refl)
let_in_shows s u (guarded (some allow) p) ht hu h = (opened s.user p, rw (ht, hu, h) refl)
let_in_shows s u root_redirect ht hu h = ground (arith, h)

-- Exactly one route fits the path, and its guard lets the role through.
abbrev leads : Role → List String → Bool
leads r path = only (lets_in r) (filter_by (λ route. fits route.path path) routes)

-- What holds of the items of the three menus holds of the menu of a user.
nav-All :
    (P : Role → List String → Type 0) (u : User)
    → All (P Role.owner) owner_nav
    → All (P u.role) branch_manager_nav
    → All (P u.role) company_nav
    → All (P u.role) (nav (some u))
nav-All P u ho hb hc = elim (role-cases u.role) [
  | inl (_, e, o) ↦ rw (e, o) ho
  | inr (_, e) ↦ elim (Bool-cases (is_branch_manager u.role)) [
    | inl b ↦ rw (e, b) hb
    | inr b ↦ rw (e, b) hc
  ]
]

nav-leads : (u : User) → All (λ path. leads u.role path ≡ true) (nav (some u))
nav-leads u =
    nav-All (λ r path. leads r path ≡ true) u (every-All (leads Role.owner) owner_nav refl)
      (every-All (leads u.role) branch_manager_nav refl) (every-All (leads u.role) company_nav refl)

module _ (pick : List Route → List String → Option Route)
    (pick_only : (rs : List Route) (path : List String) (r : Route)
      → filter_by (λ r. fits r.path path) rs ≡ r ∷ []
      → pick rs path ≡ some r) where
  -- When a route that alone fits a path is picked for it, every item of the menu leads with an access
  -- token and a known user straight to a page, without a redirect.
  pub menu_opens :
      (s : Session User) (u : User)
      → truthy s.access_token ≡ true
      → s.user ≡ some u
      → All (λ path. (p : Page) × (at_path pick s path ≡ shows p)) (nav s.user)
  menu_opens s u ht hu =
      let Opens : List String → Type 0 = λ path. (p : Page) × (at_path pick s path ≡ shows p) in
      subst (λ o. All Opens (nav o)) (sym hu)
        (All_mono _ Opens (nav (some u))
          (λ path h.
            let single = only-single (lets_in u.role) _ h in
            rw (pick_only routes path single.0 single.1)
              (let_in_shows s u single.0.element ht hu single.2))
          (nav-leads u))
