-- ===== src/Kiosk/Tests.antt =====
-- The kiosk's theorems at concrete pages, and runs.
use mathlib.Core.List.{Perm}
use hr_profi_uz.Kiosk.Cooldown.{posts_spaced}
use hr_profi_uz.Kiosk.Manual.{
  sorted, timeout_flips_manual_direction, IsSorted, manual_sheet_order, stands_before,
}
use hr_profi_uz.Kiosk.Types.{Employee, check_in}
use hr_profi_uz.Common.{
  List, ◌+◌, String, none, ◌≡◌, false, true, Bool, lookup, ◌∷◌, some, [], ◌≤◌, refl, insert,
  is_some, arith,
}
use hr_profi_uz.Kiosk.Machine.{
  run, step, Reach, reject_timeout, tick_due, reply_arrives, Event, confirm, check_ok,
  employees_load, next, pick, start, scan_timeout, result_continue,
}
use hr_profi_uz.Kiosk.Screen.{
  Screen, Flight, failed, is_idle, per_employee_cooldown_ms, initial, Reply, loop_runs, replied,
  path_of, scan_in, dir_in, direction_of, dir_out,
}
use hr_profi_uz.Kiosk.Valid.{IsValid}
use hr_profi_uz.Kiosk.Loop.{first_post, Reach-IsValid, reply_posts_direction}
use hr_profi_uz.Kiosk.Rounds.{round, IsScanning}
use hr_profi_uz.Kiosk.Rejection.{sixth_doubtful_frame_rejects, rounds, IsRejected}

abbrev ann : Employee
ann = record {
  id = "e1";
  employee_code = none;
  full_name = "Ann Lee";
  photo_url = none;
  department_name = none;
  position = none;
  is_currently_in = true;
}

abbrev bob : Employee
bob = record ann { id = "e2"; full_name = "Bob"; is_currently_in = false }

-- The operator has picked check-in and the employees are known.
abbrev opened : List Event
opened = employees_load (ann ∷ bob ∷ []) ∷ pick scan_in ∷ []

abbrev seen : Employee → Reply
seen emp = replied (record {
  matched = true;
  found = some (record { employee = emp; score = "0.9" });
  reason = none;
})

abbrev page : Screen
page = run opened initial

-- The request of the first tick is cancelled by the render that sends it; the second one is not.
abbrev in_flight : Screen
in_flight =
    run (tick_due (some "f") ∷ reply_arrives 99_000 none failed ∷ tick_due (some "f") ∷ []) page

in_flight-Reach : Reach in_flight
unfolding run
in_flight-Reach = next (next (next (next (next start _) _) _) _) _

Reach-IsValid_example : IsValid in_flight
Reach-IsValid_example = Reach-IsValid in_flight in_flight-Reach

ann_posts :
    first_post (step (reply_arrives 100_000 none (seen ann)) in_flight).1
    ≡ some ("/kiosks/me/checkin", "e1")
unfolding run step initial lookup insert
ann_posts = refl

reply_posts_direction_example :
    (is_idle in_flight.mode ≡ false)
    × ("/kiosks/me/checkin" ≡ path_of (direction_of in_flight.mode))
    × (is_some in_flight.confirm_emp ≡ false)
    × (in_flight.manual_open ≡ false)
reply_posts_direction_example =
    reply_posts_direction in_flight 100_000 none (seen ann) "/kiosks/me/checkin" "e1"
      in_flight-Reach ann_posts

abbrev live : Flight
live = record { direction = dir_in; cancelled = false }

-- The operator picks the mode again before the reply comes, and a tick is due.
abbrev meanwhile : List Event
meanwhile = pick scan_in ∷ tick_due (some "g") ∷ []

-- Ann is checked in, continues, is scanned again 31 seconds later.
abbrev between : List Event
between =
    check_ok true
      (record {
        employee = ann;
        check_type = check_in;
        timestamp = "t";
        is_late = false;
        late_minutes = 0;
        overtime_minutes = 0;
      })
      dir_in
    ∷ result_continue
    ∷ pick scan_in
    ∷ tick_due (some "g")
    ∷ reply_arrives 120_000 none failed
    ∷ tick_due (some "g")
    ∷ []

abbrev again : Screen
again = run between (step (reply_arrives 100_000 none (seen ann)) in_flight).0

ann_posts_again :
    first_post (step (reply_arrives 131_000 none (seen ann)) again).1
    ≡ some ("/kiosks/me/checkin", "e1")
unfolding run step initial lookup insert
ann_posts_again = refl

posts_spaced_example : 100_000 + per_employee_cooldown_ms ≤ 131_000
posts_spaced_example =
    posts_spaced in_flight between 100_000 131_000 none none (seen ann) (seen ann)
      "/kiosks/me/checkin" "/kiosks/me/checkin" "e1" ann_posts (omega arith) ann_posts_again

page-IsScanning : IsScanning false 0 page
unfolding run step initial loop_runs
page-IsScanning = record {
  runs = refl;
  free = refl;
  busy_flag = refl;
  streak = refl;
  hidden = refl;
}

sixth_doubtful_frame_rejects_example :
    let three = rounds (1 ∷ 2 ∷ 3 ∷ []) "f" page in
    let five = rounds (4 ∷ 5 ∷ []) "f" three in
    let six = round 6 "f" five in
    let w = (step reject_timeout six).0 in
    IsScanning true 1 three
    × IsScanning true 2 five
    × IsRejected six
    × (w.reject_shown ≡ false)
    × (is_idle w.mode ≡ true)
sixth_doubtful_frame_rejects_example =
    sixth_doubtful_frame_rejects 1 2 3 4 5 6 "f" page refl page-IsScanning

abbrev always : String → String → Bool
always a b = true

manual_sheet_order_example :
    Perm (sorted always (bob ∷ ann ∷ [])) (bob ∷ ann ∷ [])
    × IsSorted always (sorted always (bob ∷ ann ∷ []))
manual_sheet_order_example =
    manual_sheet_order always (λ a b c h k. refl) (λ a b h. cc) (bob ∷ ann ∷ [])

on_duty_first : sorted always (bob ∷ ann ∷ []) ≡ ann ∷ bob ∷ []
unfolding sorted stands_before
on_duty_first = refl

abbrev chosen : Screen
chosen = record page { manual_open = true; confirm_emp = some ann }

chosen_fields : (chosen.mode ≡ scan_in) × (chosen.is_pending ≡ false)
unfolding run step initial
chosen_fields = (refl, refl)

timeout_flips_manual_direction_example :
    (first_post (step (confirm none) chosen).1 ≡ some (path_of dir_in, "e1"))
    × (first_post (step (confirm none) (step scan_timeout chosen).0).1
        ≡ some (path_of dir_out, "e1"))
timeout_flips_manual_direction_example =
    timeout_flips_manual_direction chosen ann none chosen_fields.0 refl chosen_fields.1 refl
