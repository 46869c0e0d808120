-- ===== src/Api/Request.antt =====
-- A request as the interceptors see it: `AxiosRequestConfig` with the `_retried` mark of
-- admin-web/src/lib/api.ts and mobile/src/api/client.ts (`_retry` in client-web/lib/api.ts).
use hr_profi_uz.Common.{String, ℕ, Option, Bool, some, if◌then◌else◌, false, ◌==◌, is_blank, none}
use Prim.Native.String

pub record Config : Type 0 where
  pub id : ℕ  -- which call of the program it is
  pub url : String
  pub retried : Bool
  pub authorization : Option String
  pub accept_language : Option String

-- What the client does to the outside.
pub data Action : Type 0 where
  send : Config → Action
  resolve : Config → Action
  reject : Config → Action
  post_refresh : (refresh_token : String) → Action
  redirect_to_login : Action

abbrev pub bearer : String → String
bearer token = String.◌++◌ "Bearer " token

abbrev pub is_401 : Option ℕ → Bool
is_401 none = false
is_401 (some status) = status == 401

-- The `if (token)` of the request interceptors.
abbrev pub authorize : Option String → Config → Config
authorize none c = c
authorize (some token) c =
    if is_blank token then c else record c { authorization = some (bearer token) }
