-- ===== src/Users/Totals.antt =====
-- The numbers above the list (admin-web/src/pages/app/users/UsersListPage.tsx).
use hr_profi_uz.Common.{List, ℕ, Bool, ◌+◌, ◌≡◌, false, ◌∷◌, true, length, if◌then◌else◌, arith, []}
use hr_profi_uz.Users.Form.{
  Role, User, owner, company_admin, hr_manager, branch_manager, employee_role, device_role,
}
use hr_profi_uz.Users.Listing.{totals, count_users, count_user, nobody, Totals}

abbrev pub in_roles : Totals → ℕ
in_roles t = t.admins + t.hr + t.branch + t.employees

abbrev pub has_counted_role : Role → Bool
has_counted_role owner = false
has_counted_role company_admin = true
has_counted_role hr_manager = true
has_counted_role branch_manager = true
has_counted_role employee_role = true
has_counted_role device_role = false

-- How many of the users have one of the four roles that are counted.
abbrev pub counted_roles : List User → ℕ
counted_roles [] = 0
counted_roles (u ∷ us) = (if has_counted_role u.role then 1 else 0) + counted_roles us

count_users-balance :
    (us : List User) (t : Totals)
    → let u = count_users us t in
      (u.total ≡ t.total)
      × (u.active + u.inactive ≡ t.active + t.inactive + length us)
      × (in_roles u ≡ in_roles t + counted_roles us)
unfolding count_users
count_users-balance [] t = ground arith
count_users-balance (u ∷ us) t = ground (arith, count_users-balance us (count_user u t))

-- The active and the inactive users add up to the total, which is the number of users listed, and the
-- four counts by role add up to the users who are neither an owner nor a device.
totals_add_up :
    (us : List User)
    → let t = totals us in
      (t.total ≡ length us) × (t.active + t.inactive ≡ t.total) × (in_roles t ≡ counted_roles us)
unfolding totals
totals_add_up us = ground (arith, count_users-balance us (nobody (length us)))
