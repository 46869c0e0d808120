-- ===== src/Api/Final.antt =====
-- A request is sent at most twice (admin-web/src/lib/api.ts, mobile/src/api/client.ts).
use hr_profi_uz.Api.Balance.{run}
use hr_profi_uz.Api.Replay.{IsValid, run-IsValid}
use hr_profi_uz.Api.Request.{
  Action, Config, send, reject, bearer, resolve, post_refresh, redirect_to_login,
}
use hr_profi_uz.Session.{TokenPair}
use hr_profi_uz.Api.Machine.{
  resume, Client, settle, step, on_error, on_request, Event, refresh_answered,
}
use hr_profi_uz.Common.{
  String, Bool, Option, List, ℕ, All, ◌≡◌, true, arith, some, map, ◌∷◌, none, [], Bool-cases, inl,
  is_blank, inr, ◌∙◌,
}

module _ {U : Type 0} (is_refresh_url : String → Bool) where
  -- An action is final for the client `t`: a rejection, or a request that is rejected, with no refresh
  -- started, whichever status it fails with.
  abbrev pub IsFinal : Client U → Action → Type 0
  IsFinal t (send c) = (status : Option ℕ) → on_error is_refresh_url status c t ≡ (t, reject c ∷ [])
  IsFinal t (reject c) = Unit
  IsFinal t (resolve c) = ⊥
  IsFinal t (post_refresh token) = ⊥
  IsFinal t redirect_to_login = ⊥

  retried-IsFinal :
      (status : Option ℕ) (c : Config) (t : Client U)
      → c.retried ≡ true
      → on_error is_refresh_url status c t ≡ (t, reject c ∷ [])
  unfolding on_error
  retried-IsFinal status c t h = ground arith

  on_request-retried :
      (s : Client U) (c : Config) → (on_request is_refresh_url s c).retried ≡ c.retried
  unfolding on_request
  on_request-retried s c = ground arith

  resume-IsFinal :
      (token : Option String) (s t : Client U) (c : Config)
      → c.retried ≡ true
      → IsFinal t (resume is_refresh_url token s c)
  unfolding resume
  resume-IsFinal none s t c h = tt
  resume-IsFinal (some token) s t c h =
      let again = record c { authorization = some (bearer token) } in
      elim (Bool-cases (is_blank token)) [
        | inl blank ↦ rw blank tt
        | inr full ↦ rw full (λ status. retried-IsFinal status _ t (on_request-retried s again ∙ h))
      ]

  resumed-IsFinal :
      (token : Option String) (s t : Client U) (cs : List Config)
      → All (λ c. c.retried ≡ true) cs
      → All (IsFinal t) (map (resume is_refresh_url token s) cs)
  resumed-IsFinal token s t [] h = tt
  resumed-IsFinal token s t (c ∷ cs) (p, h) =
      (resume-IsFinal token s t c p, resumed-IsFinal token s t cs h)

  settle-IsFinal :
      (answer : Option TokenPair) (s t : Client U)
      → All (λ c. c.retried ≡ true) s.waiters
      → All (IsFinal t) (settle is_refresh_url answer s).1
  unfolding settle
  settle-IsFinal none s t h = resumed-IsFinal none (settle is_refresh_url none s).0 t s.waiters h
  settle-IsFinal (some pair) s t h =
      resumed-IsFinal (some pair.access_token) (settle is_refresh_url (some pair) s).0 t s.waiters h

  -- In every state that a run can reach from a valid one, a refresh answer makes the client only reject
  -- requests or send them again; one that is sent again and fails, with any status and in any later
  -- state `t`, is rejected, and no refresh is started for it.
  replayed_once :
      (es : List Event) (answer : Option TokenPair) (s t : Client U)
      → IsValid s
      → All (IsFinal t) (step is_refresh_url (refresh_answered answer) (run is_refresh_url es s)).1
  unfolding step
  replayed_once es answer s t v =
      let u = run is_refresh_url es s in
      let w = run-IsValid is_refresh_url es s v in
      elim (Bool-cases u.refreshing) [
        | inl busy ↦ simp busy (settle-IsFinal answer u t w.marked)
        | inr idle ↦ simp idle tt
      ]
