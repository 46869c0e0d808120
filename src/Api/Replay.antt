-- ===== src/Api/Replay.antt =====
-- What becomes of the requests that failed with 401 (admin-web/src/lib/api.ts,
-- mobile/src/api/client.ts).
use hr_profi_uz.Session.{TokenPair, empty}
use hr_profi_uz.Api.Balance.{run, one_if}
use hr_profi_uz.Api.Request.{
  Action, Config, send, reject, resolve, post_refresh, redirect_to_login, bearer,
}
use hr_profi_uz.Common.{
  String, List, ◌≡◌, Bool, true, All, ℕ, ◌∷◌, ◌⊎◌, ◌+◌, false, Option, ◌++◌, map, [], arith, some,
  ap, refl, none, count_by, is_blank, ◌==◌,
}
use hr_profi_uz.Api.Machine.{
  Client, Event, call, resume, on_error, step, errored, succeeded, refresh_answered, settle,
  on_request, language_of,
}

-- Nobody waits unless a refresh is under way, and who waits has been marked as retried.
pub record IsValid {U : Type 0} (s : Client U) : Type 0 where
  pub busy : (s.refreshing ≡ true) ⊎ (s.waiters ≡ [])
  pub marked : All (λ c. c.retried ≡ true) s.waiters

All-snoc :
    (cs : List Config) (c : Config)
    → All (λ x. x.retried ≡ true) cs
    → c.retried ≡ true
    → All (λ x. x.retried ≡ true) (cs ++ c ∷ [])
All-snoc [] c h p = (p, tt)
All-snoc (x ∷ cs) c (q, h) p = (q, All-snoc cs c h p)

-- How often the request `k` is sent, resolved or rejected.
abbrev pub closed : ℕ → List Action → ℕ
closed k [] = 0
closed k (send c ∷ actions) = one_if (c.id == k) + closed k actions
closed k (reject c ∷ actions) = one_if (c.id == k) + closed k actions
closed k (resolve c ∷ actions) = one_if (c.id == k) + closed k actions
closed k (post_refresh token ∷ actions) = closed k actions
closed k (redirect_to_login ∷ actions) = closed k actions

-- The program calls the request `k`, or the network answers it.
abbrev pub concerns : ℕ → Event → Bool
concerns k (call id url) = id == k
concerns k (errored status c) = c.id == k
concerns k (succeeded c) = c.id == k
concerns k (refresh_answered answer) = false

-- How often the request `k` waits.
abbrev pub waits : ℕ → List Config → ℕ
waits k cs = count_by (λ c. c.id == k) cs

waits-append : (k : ℕ) (cs ds : List Config) → waits k (cs ++ ds) ≡ waits k cs + waits k ds
waits-append k [] ds = ground arith
waits-append k (c ∷ cs) ds = ground (arith, waits-append k cs ds)

module _ {U : Type 0} (is_refresh_url : String → Bool) where
  errored-IsValid :
      (status : Option ℕ) (c : Config) (s : Client U)
      → IsValid s
      → IsValid (on_error is_refresh_url status c s).0
  unfolding on_error
  errored-IsValid status c s v = ground (arith, All-snoc s.waiters (record c { retried = true }))

  step-IsValid : (e : Event) (s : Client U) → IsValid s → IsValid (step is_refresh_url e s).0
  unfolding step
  step-IsValid (call id url) s v = v
  step-IsValid (succeeded c) s v = v
  step-IsValid (errored status c) s v = errored-IsValid status c s v
  step-IsValid (refresh_answered none) s v = ground arith
  step-IsValid (refresh_answered (some pair)) s v = ground arith

  -- No event makes a request wait unless a refresh is under way, and whoever waits is marked as retried.
  pub run-IsValid : (es : List Event) (s : Client U) → IsValid s → IsValid (run is_refresh_url es s)
  unfolding run
  run-IsValid [] s v = v
  run-IsValid (e ∷ es) s v = run-IsValid es _ (step-IsValid e s v)

  closed-resumed :
      (k : ℕ) (token : Option String) (s : Client U) (cs : List Config)
      → closed k (map (resume is_refresh_url token s) cs) ≡ waits k cs
  unfolding resume on_request
  closed-resumed k token s [] = refl
  closed-resumed k none s (c ∷ cs) = ground (arith, closed-resumed k none s cs)
  closed-resumed k (some t) s (c ∷ cs) = ground (arith, closed-resumed k (some t) s cs)

  on_error-closed :
      (k : ℕ) (status : Option ℕ) (c : Config) (s : Client U)
      → IsValid s
      → let (s', actions) = on_error is_refresh_url status c s in
        closed k actions + waits k s'.waiters ≡ one_if (c.id == k) + waits k s.waiters
  unfolding on_error
  on_error-closed k status c s v =
      ground (arith, waits-append k s.waiters (record c { retried = true } ∷ []))

  step-closed :
      (k : ℕ) (e : Event) (s : Client U)
      → IsValid s
      → let (s', actions) = step is_refresh_url e s in
        closed k actions + waits k s'.waiters ≡ one_if (concerns k e) + waits k s.waiters
  unfolding step on_request
  step-closed k (call id url) s v = ground arith
  step-closed k (succeeded c) s v = ground arith
  step-closed k (errored status c) s v = on_error-closed k status c s v
  step-closed k (refresh_answered none) s v =
      ground (arith, closed-resumed k none (settle is_refresh_url none s).0 s.waiters)
  step-closed k (refresh_answered (some pair)) s v = ground (
    arith,
    closed-resumed k (some pair.access_token) (settle is_refresh_url (some pair) s).0 s.waiters,
  )

  -- How often the request `k` is sent, resolved or rejected in a run.
  pub run_closed : ℕ → List Event → Client U → ℕ
  run_closed k [] s = 0
  run_closed k (e ∷ es) s =
      let (s', actions) = step is_refresh_url e s in closed k actions + run_closed k es s'

  -- From a state where nobody waits without a refresh, whatever happens: for every request, the times that
  -- it was sent, resolved or rejected and those that it waits at the end are as many as its calls, the
  -- answers of the network to it and its waits at the start.
  pub requests_accounted :
      (k : ℕ) (es : List Event) (s : Client U)
      → IsValid s
      → run_closed k es s + waits k (run is_refresh_url es s).waiters
        ≡ count_by (concerns k) es + waits k s.waiters
  unfolding run_closed run
  requests_accounted k [] s v = ground arith
  requests_accounted k (e ∷ es) s v = omega (
    arith,
    step-closed k e s v,
    requests_accounted k es (step is_refresh_url e s).0 (step-IsValid e s v),
  )

  -- The request as it is sent again with a new token.
  abbrev pub replayed : String → Client U → Config → Action
  replayed token s c = send (record c {
    authorization = some (bearer token);
    accept_language = some (language_of is_refresh_url s);
  })

  resume-replayed :
      (token : String) (s : Client U) (cs : List Config)
      → is_blank token ≡ false
      → s.session.access_token ≡ some token
      → map (resume is_refresh_url (some token) s) cs ≡ map (replayed token s) cs
  unfolding resume on_request
  resume-replayed token s [] h e = refl
  resume-replayed token s (c ∷ cs) h e = ground (arith, resume-replayed token s cs h e)

  resume-rejected :
      (s : Client U) (cs : List Config) → map (resume is_refresh_url none s) cs ≡ map reject cs
  unfolding resume
  resume-rejected s [] = refl
  resume-rejected s (c ∷ cs) = ap (λ actions. reject c ∷ actions) (resume-rejected s cs)

  -- A refresh answered with a token pair whose access token is not empty: the session has the pair and
  -- the same user, nobody waits any more, and exactly the requests that waited are sent again, in their
  -- order and with the new token.
  refresh_success_replays :
      (pair : TokenPair) (s : Client U)
      → s.refreshing ≡ true
      → is_blank pair.access_token ≡ false
      → let (s', actions) = step is_refresh_url (refresh_answered (some pair)) s in
        (actions ≡ map (replayed pair.access_token s) s.waiters)
        × (s'.waiters ≡ [])
        × (s'.refreshing ≡ false)
        × (s'.session.access_token ≡ some pair.access_token)
        × (s'.session.refresh_token ≡ some pair.refresh_token)
        × (s'.session.user ≡ s.session.user)
  unfolding step
  refresh_success_replays pair s r h =
      let s' = (settle is_refresh_url (some pair) s).0 in
      ground (arith, resume-replayed pair.access_token s' s.waiters)

  -- A refresh that fails: the session is emptied, and exactly the requests that waited are rejected.
  refresh_failure_rejects :
      (s : Client U)
      → s.refreshing ≡ true
      → let (s', actions) = step is_refresh_url (refresh_answered none) s in
        (actions ≡ map reject s.waiters)
        × (s'.waiters ≡ [])
        × (s'.refreshing ≡ false)
        × (s'.session ≡ empty)
  unfolding step empty
  refresh_failure_rejects s r =
      ground (arith, resume-rejected (settle is_refresh_url none s).0 s.waiters)
