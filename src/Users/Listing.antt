-- ===== src/Users/Listing.antt =====
-- The numbers above the list of users (admin-web/src/pages/app/users/UsersListPage.tsx).
use hr_profi_uz.Users.Form.{
  User, Role, owner, company_admin, hr_manager, branch_manager, employee_role, device_role,
}
use hr_profi_uz.Common.{ℕ, ◌+◌, List, [], ◌∷◌, if◌then◌else◌, length}

-- `out`
pub record Totals : Type 0 where
  pub total : ℕ
  pub active : ℕ
  pub inactive : ℕ
  pub admins : ℕ
  pub hr : ℕ
  pub branch : ℕ
  pub employees : ℕ

abbrev pub count_role : Role → Totals → Totals
count_role owner t = t
count_role company_admin t = record t { admins = t.admins + 1 }
count_role hr_manager t = record t { hr = t.hr + 1 }
count_role branch_manager t = record t { branch = t.branch + 1 }
count_role employee_role t = record t { employees = t.employees + 1 }
count_role device_role t = t

abbrev pub count_user : User → Totals → Totals
count_user u t = count_role u.role (
    if u.is_active
    then record t { active = t.active + 1 }
    else record t { inactive = t.inactive + 1 })

unfoldable pub count_users : List User → Totals → Totals
count_users [] t = t
count_users (u ∷ us) t = count_users us (count_user u t)

-- `out` before the loop.
abbrev pub nobody : ℕ → Totals
nobody total = record {
  total = total;
  active = 0;
  inactive = 0;
  admins = 0;
  hr = 0;
  branch = 0;
  employees = 0;
}

unfoldable pub totals : List User → Totals
unfolding count_users
totals us = count_users us (nobody (length us))
