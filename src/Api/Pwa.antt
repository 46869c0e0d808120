-- ===== src/Api/Pwa.antt =====
-- The interceptors of client-web/lib/api.ts. The two prefix tests on texts, `startsWith("/auth/")` and
-- `pathname.startsWith("/login")`, enter as a parameter and as the field `at_login`.
use hr_profi_uz.Api.Request.{
  Config, Action, authorize, reject, is_401, redirect_to_login, send, bearer, post_refresh,
}
use hr_profi_uz.Common.{
  String, Bool, List, Option, ℕ, some, ◌∷◌, false, true, if◌then◌else◌, ◌++◌, [], is_blank, ◌&&◌,
  map, none, not,
}
use hr_profi_uz.Session.{Session, set_tokens, logout, TokenPair}

pub record PwaClient (U : Type 0) : Type 0 where
  pub session : Session U
  pub at_login : Bool
  pub refreshing : Bool
  pub waiters : List Config

module _ {U : Type 0} (user_language : U → String) (is_auth_url : String → Bool) where
  -- `if (lang) … ["Accept-Language"] = lang`
  abbrev pub localize : Option U → Config → Config
  localize none c = c
  localize (some u) c =
      if is_blank (user_language u)
      then c
      else record c { accept_language = some (user_language u) }

  unfoldable pub pwa_request : PwaClient U → Config → Config
  pwa_request s c = localize s.session.user (authorize s.session.access_token c)

  -- The `catch` of the interceptor for one request.
  unfoldable pub give_up : PwaClient U → Config → List Action
  give_up s c = if s.at_login then reject c ∷ [] else redirect_to_login ∷ reject c ∷ []

  -- The response interceptor for an error, up to `await refreshing`.
  unfoldable pub pwa_error : Option ℕ → Config → PwaClient U → PwaClient U × List Action
  unfolding give_up logout
  pwa_error status c s =
      let c' = record c { retried = true } in
      if is_401 status && (not c.retried && not (is_auth_url c.url))
      then (if s.refreshing
          then (record s { waiters = s.waiters ++ c' ∷ [] }, [])
          else elim s.session.refresh_token [
            | none ↦ (record s { session = logout s.session }, give_up s c')
            | some token ↦
                if is_blank token
                then (record s { session = logout s.session }, give_up s c')
                else (record s { refreshing = true; waiters = c' ∷ [] }, post_refresh token ∷ [])
          ])
      else (s, reject c ∷ [])

  unfoldable pub give_up_all : PwaClient U → List Config → List Action
  unfolding give_up
  give_up_all s [] = []
  give_up_all s (c ∷ cs) = give_up s c ++ give_up_all s cs

  -- Each of the requests that give up empties the session.
  abbrev pub session_after : List Config → Session U → Session U
  session_after [] s = s
  session_after (c ∷ cs) s = logout s

  -- The `then` and the `finally` of the refresh, and what follows `await refreshing` for each request:
  -- sent again, or the `catch`, which empties the session once more.
  unfoldable pub pwa_settle : Option TokenPair → PwaClient U → PwaClient U × List Action
  unfolding pwa_request set_tokens logout give_up_all
  pwa_settle (some pair) s =
      let s' = record s { session = set_tokens pair s.session; refreshing = false; waiters = [] } in
      (
        s',
        map
            (λ c.
              send (pwa_request s' (record c { authorization = some (bearer pair.access_token) })))
            s.waiters,
      )
  pwa_settle none s = (
    record s { session = session_after s.waiters s.session; refreshing = false; waiters = [] },
    give_up_all s s.waiters,
  )
