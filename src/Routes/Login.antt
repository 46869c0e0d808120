-- ===== src/Routes/Login.antt =====
-- The sign-in (admin-web/src/pages/LoginPage.tsx) beside the effect that loads a missing profile
-- (admin-web/src/App.tsx): what their answers do to the session, in the order of their arrival.
use hr_profi_uz.Routes.Guard.{home}
use hr_profi_uz.Users.Form.{User, Role}
use hr_profi_uz.Common.{List, Option, String, some, ◌∷◌, Bool, [], true, none, if◌then◌else◌, false}
use hr_profi_uz.Session.{set_tokens, set_user, logout, TokenPair, Session}

-- `ADMIN_ROLES.has`
abbrev pub is_admin_role : Role → Bool
is_admin_role Role.owner = true
is_admin_role Role.company_admin = true
is_admin_role Role.hr_manager = true
is_admin_role Role.branch_manager = true
is_admin_role Role.employee_role = false
is_admin_role Role.device_role = false

-- What arrives: the tokens and the profile of the sign-in, and the profile for the effect; `none` is
-- a request that failed.
pub data Answer : Type 0 where
  tokens : TokenPair → Answer
  profile : Option User → Answer
  rehydrated : Option User → Answer

-- The sign-in's profile: another role drops the tokens.
abbrev pub on_profile : Option User → Session User → Session User
on_profile none s = s
on_profile (some u) s = if is_admin_role u.role then set_user (some u) s else logout s

-- The effect's profile: a failure is ignored.
abbrev pub on_rehydrated : Option User → Session User → Session User
on_rehydrated none s = s
on_rehydrated (some u) s = set_user (some u) s

abbrev pub answer : Answer → Session User → Session User
answer (tokens pair) s = set_tokens pair s
answer (profile u) s = on_profile u s
answer (rehydrated u) s = on_rehydrated u s

abbrev pub answers : List Answer → Session User → Session User
answers [] s = s
answers (a ∷ as_they_come) s = answers as_they_come (answer a s)

-- `navigate` of `onSuccess`
abbrev pub landing : User → List String
landing u = home u.role
