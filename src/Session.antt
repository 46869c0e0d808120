-- ===== src/Session.antt =====
-- The persisted sessions: admin-web/src/stores/auth.ts, mobile/src/stores/auth.ts,
-- client-web/lib/auth-store.ts and kiosk-web/src/stores/auth.ts. `U` is the type of the users, which
-- the stores only keep.
use hr_profi_uz.Common.{Option, some, String, none, Bool, false, not, is_blank}

pub record Session (U : Type 0) : Type 0 where
  pub access_token : Option String
  pub refresh_token : Option String
  pub user : Option U

-- The part of `TokenPair` that is kept.
pub record TokenPair : Type 0 where
  pub access_token : String
  pub refresh_token : String

-- A token that is present and not the empty text.
abbrev pub truthy : Option String → Bool
truthy none = false
truthy (some s) = not (is_blank s)

module _ {U : Type 0} where
  unfoldable pub empty : Session U
  empty = record { access_token = none; refresh_token = none; user = none }

  unfoldable pub set_tokens : TokenPair → Session U → Session U
  set_tokens pair s = record s {
    access_token = some pair.access_token;
    refresh_token = some pair.refresh_token;
  }

  unfoldable pub set_user : Option U → Session U → Session U
  set_user u s = record s { user = u }

  unfoldable pub set_access_token : String → Session U → Session U
  set_access_token token s = record s { access_token = some token }

  unfoldable pub logout : Session U → Session U
  logout s = record s { access_token = none; refresh_token = none; user = none }
