-- ===== src/Api/Balance.antt =====
-- One refresh at a time (admin-web/src/lib/api.ts, mobile/src/api/client.ts).
use hr_profi_uz.Api.Machine.{
  Event, Client, resume, step, refresh_answered, call, succeeded, errored, settle,
}
use hr_profi_uz.Common.{
  String, Bool, List, ◌≡◌, ℕ, ◌∷◌, true, Option, ◌+◌, if◌then◌else◌, false, [], count_by, map,
  arith, some, refl, none,
}
use hr_profi_uz.Api.Request.{Action, post_refresh, Config, send, resolve, reject, redirect_to_login}

abbrev pub is_refresh : Action → Bool
is_refresh (post_refresh token) = true
is_refresh (send c) = false
is_refresh (resolve c) = false
is_refresh (reject c) = false
is_refresh redirect_to_login = false

-- The refresh requests among some actions.
abbrev pub refreshes : List Action → ℕ
refreshes actions = count_by is_refresh actions

abbrev pub one_if : Bool → ℕ
one_if b = if b then 1 else 0

module _ {U : Type 0} where
  -- A refresh answer that the client waits for.
  abbrev pub answers : Event → Client U → ℕ
  answers (refresh_answered a) s = one_if s.refreshing
  answers (call id url) s = 0
  answers (succeeded c) s = 0
  answers (errored status c) s = 0

module _ {U : Type 0} (is_refresh_url : String → Bool) where
  -- The refresh requests sent, and the answers taken, in a run.
  pub run_sent : List Event → Client U → ℕ
  run_sent [] s = 0
  run_sent (e ∷ es) s =
      let (s', actions) = step is_refresh_url e s in refreshes actions + run_sent es s'

  pub run_answered : List Event → Client U → ℕ
  run_answered [] s = 0
  run_answered (e ∷ es) s = answers e s + run_answered es (step is_refresh_url e s).0

  unfoldable pub run : List Event → Client U → Client U
  run [] s = s
  run (e ∷ es) s = run es (step is_refresh_url e s).0

  resumed_no_refresh :
      (token : Option String) (s : Client U) (cs : List Config)
      → refreshes (map (resume is_refresh_url token s) cs) ≡ 0
  unfolding resume
  resumed_no_refresh token s [] = refl
  resumed_no_refresh none s (c ∷ cs) = ground (arith, resumed_no_refresh none s cs)
  resumed_no_refresh (some t) s (c ∷ cs) = ground (arith, resumed_no_refresh (some t) s cs)

  step-balance :
      (e : Event) (s : Client U)
      → let (s', actions) = step is_refresh_url e s in
        refreshes actions + one_if s.refreshing ≡ answers e s + one_if s'.refreshing
  unfolding step
  step-balance (call id url) s = ground arith
  step-balance (succeeded c) s = ground arith
  step-balance (errored status c) s = ground arith
  step-balance (refresh_answered none) s =
      ground (arith, resumed_no_refresh none (settle is_refresh_url none s).0 s.waiters)
  step-balance (refresh_answered (some pair)) s = ground (
    arith,
    resumed_no_refresh (some pair.access_token) (settle is_refresh_url (some pair) s).0 s.waiters,
  )

  run-balance :
      (es : List Event) (s : Client U)
      → run_sent es s + one_if s.refreshing ≡ run_answered es s + one_if (run es s).refreshing
  unfolding run_sent run_answered run
  run-balance [] s = refl
  run-balance (e ∷ es) s =
      omega (arith, step-balance e s, run-balance es (step is_refresh_url e s).0)

  -- In every run, the refresh requests sent are as many as the refresh answers taken, and one more while
  -- a refresh is under way, if none was at the start: two refreshes are never under way at once.
  pub refreshes_balanced :
      (es : List Event) (s : Client U)
      → s.refreshing ≡ false
      → run_sent es s ≡ run_answered es s + one_if (run es s).refreshing
  refreshes_balanced es s h = ground (arith, run-balance es s)
