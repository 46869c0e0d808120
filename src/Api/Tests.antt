-- ===== src/Api/Tests.antt =====
-- The clients' theorems at concrete requests, and runs.
use hr_profi_uz.Api.Request.{Config}
use hr_profi_uz.Api.Machine.{refresh_answered, Client, Event, errored, step, on_error}
use hr_profi_uz.Api.Balance.{run_sent, run, run_answered, one_if, refreshes_balanced}
use hr_profi_uz.Common.{
  ℕ, List, String, some, ◌+◌, false, arith, Bool, ◌≡◌, ◌∷◌, refl, ◌===◌, [], true,
}
use hr_profi_uz.Api.Replay.{waits, run_closed, IsValid, requests_accounted}

abbrev is_refresh_url : String → Bool
is_refresh_url url = url === "/auth/refresh"

abbrev request : ℕ → Config
request n = record {
  id = n;
  url = "/kpi";
  retried = false;
  authorization = some "Bearer old";
  accept_language = some "uz";
}

abbrev marked : ℕ → Config
marked n = record (request n) { retried = true }

abbrev signed_in : Client String
signed_in = record {
  session = record { access_token = some "old"; refresh_token = some "r1"; user = some "ann" };
  language = "ru";
  refreshing = false;
  waiters = [];
}

-- Two requests fail with 401 while one refresh is under way.
abbrev two_errors : List Event
two_errors = errored (some 401) (request 1) ∷ errored (some 401) (request 2) ∷ []

abbrev waiting : Client String
waiting = record signed_in { refreshing = true; waiters = marked 1 ∷ marked 2 ∷ [] }

signed_in-IsValid : IsValid signed_in
signed_in-IsValid = ground arith

refreshes_balanced_example :
    run_sent is_refresh_url two_errors signed_in
    ≡ run_answered is_refresh_url two_errors signed_in
      + one_if (run is_refresh_url two_errors signed_in).refreshing
refreshes_balanced_example = refreshes_balanced is_refresh_url two_errors signed_in refl

-- The refresh is answered while the two wait.
abbrev then_refreshed : List Event
then_refreshed =
    errored (some 401) (request 1)
    ∷ errored (some 401) (request 2)
    ∷ refresh_answered (some (record { access_token = "new"; refresh_token = "r2" }))
    ∷ []

requests_accounted_example :
    run_closed is_refresh_url 2 then_refreshed signed_in
      + waits 2 (run is_refresh_url then_refreshed signed_in).waiters
    ≡ 1 + 0
requests_accounted_example =
    requests_accounted is_refresh_url 2 then_refreshed signed_in signed_in-IsValid

abbrev language : String → String
language user = "uz"

two_wait : run is_refresh_url two_errors signed_in ≡ waiting
unfolding run step on_error
two_wait = refl
