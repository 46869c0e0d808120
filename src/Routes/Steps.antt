-- ===== src/Routes/Steps.antt =====
-- One step of the panel at an element of its table (admin-web/src/components/ProtectedRoute.tsx).
use hr_profi_uz.Routes.Guard.{
  dashboard, same_role, opened, is_switcher, at_element, is_branch_manager, shows, go, home, blank,
  is_owner,
}
use hr_profi_uz.Routes.Table.{Page, Element, login_page, owner_dashboard}
use hr_profi_uz.Common.{
  Option, any, ◌≡◌, ◌∷◌, true, false, some, [], ◌⊎◌, Bool-cases, inl, inr, none, refl, arith,
  if◌then◌else◌,
}
use hr_profi_uz.Session.{Session, truthy}
use hr_profi_uz.Users.Form.{Role, User}
use hr_profi_uz.Routes.Guarded.{is_owner_page, Guarded, for_owner, for_all, sign_in, redirect}

dashboard-is_owner_page : (u : Option User) → is_owner_page (dashboard u) ≡ false
dashboard-is_owner_page none = refl
dashboard-is_owner_page (some u) = elim (Bool-cases (is_branch_manager u.role)) [
  | inl e ↦ rw e refl
  | inr e ↦ rw e refl
]

opened-is_owner_page :
    (u : Option User) (p : Page) → is_owner_page p ≡ false → is_owner_page (opened u p) ≡ false
opened-is_owner_page u p h = elim (Bool-cases (is_switcher p)) [
  | inl e ↦ rw e (dashboard-is_owner_page u)
  | inr e ↦ rw e h
]

-- Only an owner passes the owner's guard.
pub role-cases :
    (r : Role)
    → ((any (same_role r) (Role.owner ∷ []) ≡ true) × (is_owner r ≡ true) × (r ≡ Role.owner))
      ⊎ ((any (same_role r) (Role.owner ∷ []) ≡ false) × (is_owner r ≡ false))
role-cases Role.owner = inl (refl, refl, refl)
role-cases Role.company_admin = inr (refl, refl)
role-cases Role.hr_manager = inr (refl, refl)
role-cases Role.branch_manager = inr (refl, refl)
role-cases Role.employee_role = inr (refl, refl)
role-cases Role.device_role = inr (refl, refl)

-- A page that may be shown to the role.
abbrev pub MayShow : Role → Page → Type 0
MayShow r p = is_owner_page p ≡ true → r ≡ Role.owner

-- What an element does for a user who is known.
pub signed_in_step :
    (s : Session User) (u : User) (e : Element)
    → truthy s.access_token ≡ true
    → s.user ≡ some u
    → Guarded e
    → (((p : Page) × (at_element s e ≡ shows p) × MayShow u.role p) ⊎ (at_element s e ≡ go []))
      ⊎ (at_element s e ≡ go (home u.role))
signed_in_step s u e ht hu sign_in = inl (inr (rw ht refl))
signed_in_step s u e ht hu redirect = inr (rw (ht, hu) refl)
signed_in_step s u e ht hu (for_owner p h) = elim (role-cases u.role) [
  | inl (m, _, o) ↦ inl (inl (opened (some u) p, rw (ht, hu, m) refl, λ _. o))
  | inr (m, _) ↦ inr (rw (ht, hu, m) refl)
]
signed_in_step s u e ht hu (for_all p h) = inl (
    inl (
      opened (some u) p,
      rw (ht, hu) refl,
      λ o. ground (arith, o, opened-is_owner_page (some u) p h),
    ))

-- What an element does without a token.
pub signed_out_step :
    (s : Session User) (e : Element)
    → truthy s.access_token ≡ false
    → Guarded e
    → (at_element s e ≡ shows login_page) ⊎ (at_element s e ≡ go ("login" ∷ []))
signed_out_step s e ht sign_in = inl (rw ht refl)
signed_out_step s e ht redirect = inr (rw ht refl)
signed_out_step s e ht (for_owner p h) = inr (rw ht refl)
signed_out_step s e ht (for_all p h) = inr (rw ht refl)

-- What an element does while the profile of the user is not loaded.
pub loading_step :
    (s : Session User) (e : Element)
    → truthy s.access_token ≡ true
    → s.user ≡ none
    → Guarded e
    → (((p : Page) × (at_element s e ≡ shows p)) ⊎ (at_element s e ≡ blank))
      ⊎ (at_element s e ≡ go [])
loading_step s e ht hu sign_in = inr (rw ht refl)
loading_step s e ht hu redirect = inl (inr (rw (ht, hu) refl))
loading_step s e ht hu (for_owner p h) = inl (inl (opened none p, rw (ht, hu) refl))
loading_step s e ht hu (for_all p h) = inl (inl (opened none p, rw (ht, hu) refl))

-- The page at the home of a role.
abbrev pub home_page : User → Page
home_page u = if is_owner u.role then owner_dashboard else dashboard (some u)

pub home_page-MayShow : (u : User) → MayShow u.role (home_page u)
home_page-MayShow u = elim (role-cases u.role) [
  | inl (_, _, o) ↦ λ _. o
  | inr (_, e) ↦ rw e (λ h. ground (arith, h, dashboard-is_owner_page (some u)))
]
