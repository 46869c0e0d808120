-- ===== src/Routes/Landing.antt =====
-- Where the panel ends up after it was opened at a path (admin-web/src/App.tsx,
-- admin-web/src/components/ProtectedRoute.tsx).
use hr_profi_uz.Routes.Steps.{
  home_page, signed_out_step, MayShow, signed_in_step, role-cases, home_page-MayShow, loading_step,
}
use hr_profi_uz.Routes.Guard.{or_splat, at_path, at_element, home, follow, shows, go, blank}
use hr_profi_uz.Users.Form.{User, Role}
use hr_profi_uz.Session.{Session, truthy}
use hr_profi_uz.Routes.Guarded.{Guarded, redirect, routes-Guarded}
use hr_profi_uz.Common.{
  List, String, Option, All, ◌≡◌, some, filter_by, ◌∷◌, [], Option-cases, inl, none, inr, refl,
  true, false, ◌∙◌, ◌⊎◌, Bool-cases,
}
use hr_profi_uz.Routes.Table.{
  Route, routes, fits, guarded, root_redirect, open_page, login_page, owner_dashboard,
  dashboard_switcher, Page,
}

module _ (pick : List Route → List String → Option Route)
    (pick_listed : (P : Route → Type 0) (rs : List Route) (path : List String) (r : Route)
      → All P rs
      → pick rs path ≡ some r
      → P r)
    (pick_only : (rs : List Route) (path : List String) (r : Route)
      → filter_by (λ r. fits r.path path) rs ≡ r ∷ []
      → pick rs path ≡ some r) where
  -- Whatever the path is, what stands there is guarded.
  element-Guarded : (path : List String) → Guarded (or_splat (pick routes path))
  element-Guarded path = elim (Option-cases (pick routes path)) [
    | inl e ↦ rw e redirect
    | inr (r, e) ↦ rw e (pick_listed (λ r. Guarded r.element) routes path r routes-Guarded e)
  ]

  pub at_path_login :
      (s : Session User) → at_path pick s ("login" ∷ []) ≡ at_element s (open_page login_page)
  at_path_login s = rw (pick_only routes ("login" ∷ []) _ refl) refl

  at_path_root : (s : Session User) → at_path pick s [] ≡ at_element s root_redirect
  at_path_root s = rw (pick_only routes [] _ refl) refl

  at_path_owner :
      (s : Session User)
      → at_path pick s ("owner" ∷ [])
        ≡ at_element s (guarded (some (Role.owner ∷ [])) owner_dashboard)
  at_path_owner s = rw (pick_only routes ("owner" ∷ []) _ refl) refl

  at_path_app :
      (s : Session User)
      → at_path pick s ("app" ∷ []) ≡ at_element s (guarded none dashboard_switcher)
  at_path_app s = rw (pick_only routes ("app" ∷ []) _ refl) refl

  -- At the home of a role its user sees a page.
  at_path-home :
      (s : Session User) (u : User)
      → truthy s.access_token ≡ true
      → s.user ≡ some u
      → at_path pick s (home u.role) ≡ shows (home_page u)
  at_path-home s u ht hu = elim (role-cases u.role) [
    | inl (m, e, _) ↦ rw e (at_path_owner s ∙ rw (ht, hu, m) refl)
    | inr (_, e) ↦ rw e (at_path_app s ∙ rw (ht, hu) refl)
  ]

  -- Without an access token, or with a blank one, every path ends at the sign-in page, after at most
  -- one redirect.
  pub signed_out_lands :
      (s : Session User) (path : List String)
      → truthy s.access_token ≡ false
      → follow pick 2 s (go path) ≡ some (shows login_page)
  signed_out_lands s path h = elim (signed_out_step s _ h (element-Guarded path)) [
    | inl e ↦ rw (follow, e) refl
    | inr e ↦ rw (follow, e, at_path_login s, h) refl
  ]

  -- When only routes of the table are picked, and where one route alone fits this one is, every path
  -- ends with an access token and a known user at a page, after at most two redirects, and a page of
  -- the platform's owner is shown to an owner only.
  pub signed_in_lands :
      (s : Session User) (u : User) (path : List String)
      → truthy s.access_token ≡ true
      → s.user ≡ some u
      → (p : Page) × (follow pick 3 s (go path) ≡ some (shows p)) × MayShow u.role p
  signed_in_lands s u path ht hu = elim (signed_in_step s u _ ht hu (element-Guarded path)) [
    | inl (inl (p, e, m)) ↦ (p, rw (follow, e) refl, m)
    | inl (inr e) ↦ (
      home_page u,
      rw (follow, e, at_path_root s, ht, hu, at_path-home s u ht hu) refl,
      home_page-MayShow u,
    )
    | inr e ↦ (home_page u, rw (follow, e, at_path-home s u ht hu) refl, home_page-MayShow u)
  ]

  -- When only routes of the table are picked, and where one route alone fits this one is, the
  -- redirects from a path end whatever the session is, also with a user who is not loaded: at a page
  -- or at the blank screen, after at most two.
  pub redirects_end :
      (s : Session User) (path : List String)
      → ((p : Page) × (follow pick 3 s (go path) ≡ some (shows p)))
        ⊎ (follow pick 3 s (go path) ≡ some blank)
  redirects_end s path = elim (Bool-cases (truthy s.access_token)) [
    | inl ht ↦ elim (Option-cases s.user) [
      | inl hu ↦ elim (loading_step s _ ht hu (element-Guarded path)) [
        | inl (inl (p, e)) ↦ inl (p, rw (follow, e) refl)
        | inl (inr e) ↦ inr (rw (follow, e) refl)
        | inr e ↦ inr (rw (follow, e, at_path_root s, ht, hu) refl)
      ]
      | inr (u, hu) ↦ let landed = signed_in_lands s u path ht hu in inl (landed.0, landed.1)
    ]
    | inr ht ↦ elim (signed_out_step s _ ht (element-Guarded path)) [
      | inl e ↦ inl (login_page, rw (follow, e) refl)
      | inr e ↦ inl (login_page, rw (follow, e, at_path_login s, ht) refl)
    ]
  ]
