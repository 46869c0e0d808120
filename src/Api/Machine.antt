-- ===== src/Api/Machine.antt =====
-- The interceptors of admin-web/src/lib/api.ts, and of mobile/src/api/client.ts, which has the same
-- code. Requests wait on the one refresh that is under way; `waiters` are those that have reached
-- `await refreshing`, in that order.
use hr_profi_uz.Api.Request.{
  Config, authorize, Action, reject, send, is_401, bearer, resolve, post_refresh,
}
use hr_profi_uz.Session.{Session, set_tokens, logout, TokenPair}
use hr_profi_uz.Common.{
  String, Bool, Option, if◌then◌else◌, List, ℕ, is_blank, some, false, ◌&&◌, none, [], map, not,
  ◌∷◌, true, ◌++◌,
}

pub record Client (U : Type 0) : Type 0 where
  pub session : Session U
  pub language : String  -- `i18n.language`
  pub refreshing : Bool  -- `refreshing` is a promise
  pub waiters : List Config

pub data Event : Type 0 where
  call : (id : ℕ) → (url : String) → Event
  succeeded : Config → Event
  errored : (status : Option ℕ) → Config → Event
  refresh_answered : Option TokenPair → Event

-- Whether a request is one for the refresh endpoint: `original.url?.includes("/auth/refresh")`.
module _ {U : Type 0} (is_refresh_url : String → Bool) where
  -- `i18n.language || "uz"`
  abbrev pub language_of : Client U → String
  language_of s = if is_blank s.language then "uz" else s.language

  -- The request interceptor.
  unfoldable pub on_request : Client U → Config → Config
  on_request s c = record (authorize s.session.access_token c) {
    accept_language = some (language_of s);
  }

  -- The start of `attemptRefresh`. Without a refresh token its promise is `null` at once, and the
  -- request that started it is rejected.
  unfoldable pub start_refresh : Config → Client U → Client U × List Action
  start_refresh c s = elim s.session.refresh_token [
    | none ↦ (s, reject c ∷ [])
    | some token ↦
        if is_blank token
        then (s, reject c ∷ [])
        else (record s { refreshing = true; waiters = c ∷ [] }, post_refresh token ∷ [])
  ]

  -- The response interceptor for an error with its status, up to `await refreshing`.
  unfoldable pub on_error : Option ℕ → Config → Client U → Client U × List Action
  unfolding start_refresh logout
  on_error status c s =
      if is_401 status && not c.retried
      then (if is_refresh_url c.url
          then (record s { session = logout s.session }, reject c ∷ [])
          else (let c' = record c { retried = true } in
              if s.refreshing
              then (record s { waiters = s.waiters ++ c' ∷ [] }, [])
              else start_refresh c' s))
      else (s, reject c ∷ [])

  -- What follows `await refreshing` for one request.
  unfoldable pub resume : Option String → Client U → Config → Action
  unfolding on_request
  resume none s c = reject c
  resume (some token) s c =
      if is_blank token
      then reject c
      else send (on_request s (record c { authorization = some (bearer token) }))

  -- The rest of `attemptRefresh`, the `finally`, and the requests that wait.
  unfoldable pub settle : Option TokenPair → Client U → Client U × List Action
  unfolding resume set_tokens logout
  settle none s =
      let s' = record s { session = logout s.session; refreshing = false; waiters = [] } in
      (s', map (resume none s') s.waiters)
  settle (some pair) s =
      let s' = record s { session = set_tokens pair s.session; refreshing = false; waiters = [] } in
      (s', map (resume (some pair.access_token) s') s.waiters)

  unfoldable pub step : Event → Client U → Client U × List Action
  unfolding on_error settle on_request
  step (call id url) s = (
    s,
    send (
          on_request s (record {
            id = id;
            url = url;
            retried = false;
            authorization = none;
            accept_language = none;
          }))
        ∷ [],
  )
  step (succeeded c) s = (s, resolve c ∷ [])
  step (errored status c) s = on_error status c s
  step (refresh_answered answer) s = if s.refreshing then settle answer s else (s, [])
