-- ===== src/Api/PwaLaws.antt =====
-- What the refresh of the employee app does with the requests that wait (client-web/lib/api.ts).
use hr_profi_uz.Session.{empty, truthy}
use hr_profi_uz.Api.Pwa.{give_up_all, pwa_error, pwa_settle, PwaClient}
use hr_profi_uz.Api.Request.{Action, Config, send, reject, resolve, post_refresh, redirect_to_login}
use hr_profi_uz.Common.{
  String, List, Bool, true, ◌∷◌, Option, ℕ, false, ◌≡◌, ◌⊎◌, arith, none, some, any, [], refl,
}

abbrev pub rejections : List Action → List Config
rejections [] = []
rejections (reject c ∷ actions) = c ∷ rejections actions
rejections (send c ∷ actions) = rejections actions
rejections (resolve c ∷ actions) = rejections actions
rejections (post_refresh token ∷ actions) = rejections actions
rejections (redirect_to_login ∷ actions) = rejections actions

abbrev pub is_redirect : Action → Bool
is_redirect redirect_to_login = true
is_redirect (send c) = false
is_redirect (reject c) = false
is_redirect (resolve c) = false
is_redirect (post_refresh token) = false

module _ {U : Type 0} (user_language : U → String) (is_auth_url : String → Bool) where
  give_up_all-rejections :
      (s : PwaClient U) (cs : List Config)
      → rejections (give_up_all user_language is_auth_url s cs) ≡ cs
  unfolding give_up_all
  give_up_all-rejections s [] = refl
  give_up_all-rejections s (c ∷ cs) = ground (arith, give_up_all-rejections s cs)

  give_up_all-redirects :
      (s : PwaClient U) (cs : List Config)
      → s.at_login ≡ true
      → any is_redirect (give_up_all user_language is_auth_url s cs) ≡ false
  unfolding give_up_all
  give_up_all-redirects s [] h = refl
  give_up_all-redirects s (c ∷ cs) h = ground (arith, give_up_all-redirects s cs h)

  -- In the employee app, when a refresh with at least one request waiting fails, the session is emptied,
  -- exactly the requests that waited are rejected, in their order, nobody waits any more, and on the login
  -- page there is no redirect.
  pwa_failure_rejects :
      (s : PwaClient U) (c : Config) (cs : List Config)
      → s.waiters ≡ c ∷ cs
      → let (s', actions) = pwa_settle user_language is_auth_url none s in
        (rejections actions ≡ s.waiters)
        × (s'.session ≡ empty)
        × (s'.waiters ≡ [])
        × (s'.refreshing ≡ false)
        × ((s.at_login ≡ false) ⊎ (any is_redirect actions ≡ false))
  unfolding pwa_settle empty
  pwa_failure_rejects s c cs h =
      ground (arith, give_up_all-rejections s s.waiters, give_up_all-redirects s s.waiters)

  -- In the employee app a 401 on an authentication call, and any error of a request that was already sent
  -- again, is rejected at once: the session stays and no refresh is started.
  pwa_no_loop :
      (status : Option ℕ) (c : Config) (s : PwaClient U)
      → ((c.retried ≡ true) ⊎ (is_auth_url c.url ≡ true))
      → pwa_error user_language is_auth_url status c s ≡ (s, reject c ∷ [])
  unfolding pwa_error
  pwa_no_loop status c s h = ground arith

  -- In the employee app a first 401 of another call, with no refresh under way, starts a refresh if there
  -- is a token for it, and otherwise empties the session and rejects the request.
  pwa_first_401 :
      (c : Config) (s : PwaClient U)
      → c.retried ≡ false
      → is_auth_url c.url ≡ false
      → s.refreshing ≡ false
      → let (s', actions) = pwa_error user_language is_auth_url (some 401) c s in
        ((truthy s.session.refresh_token ≡ true)
          × (s'.refreshing ≡ true)
          × (s'.waiters ≡ record c { retried = true } ∷ [])
          × (s'.session ≡ s.session))
        ⊎ ((truthy s.session.refresh_token ≡ false)
            × (s'.refreshing ≡ false)
            × (rejections actions ≡ record c { retried = true } ∷ [])
            × (s'.session ≡ empty))
  unfolding pwa_error empty
  pwa_first_401 c s h k r = ground arith
