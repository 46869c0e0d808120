-- ===== src/Settings/Tests.antt =====
-- The settings at concrete values; numbers are those of one digit.
use hr_profi_uz.Common.{
  leb, ◌∷◌, String, false, Entries, sort_by, ℕ, ◌≡◌, insert_by, true, [], if◌then◌else◌, ◌===◌,
  ◌==◌, lookup, refl, arith, insert,
}
use hr_profi_uz.Settings.Tabs.{
  Value, Rules, Schedule, save_rules, save_schedule, rules_from, schedule_from, text, number, null,
}
use hr_profi_uz.Settings.ReadBack.{saved_tabs_read_back}
use hr_profi_uz.Settings.Toggling.{toggle_day_twice, IsAscending}
use hr_profi_uz.Settings.Days.{toggle_day}

abbrev to_number : String → ℕ
to_number t = if t === "5" then 5 else (if t === "8" then 8 else 0)

abbrev show : Value ℕ → String
show (number n) = if n == 5 then "5" else (if n == 8 then "8" else "0")
show (text t) = t
show _ = ""

abbrev rules : Rules
rules = record {
  late_threshold_min = "5";
  late_penalty_per_min = "0";
  overtime_after_hours = "8";
  geofence_radius_m = "8";
  face_match_threshold = "0";
  max_devices_per_employee = "5";
  absence_penalty_enabled = false;
  pwa_checkin_enabled = true;
  kiosk_checkin_enabled = true;
  face_device_checkin_enabled = false;
}

abbrev schedule : Schedule ℕ
schedule = record {
  working_days = 6 ∷ 1 ∷ 3 ∷ [];
  working_hours_per_day = "8";
  default_shift_start = "09:00";
  default_shift_end = "18:00";
}

abbrev stored : Entries (Value ℕ)
stored = ("locale", text "uz") ∷ ("working_days", null) ∷ []

schedule_run :
    (schedule_from show (1 ∷ []) (save_schedule to_number leb schedule stored)).working_days
    ≡ 1 ∷ 3 ∷ 6 ∷ []
unfolding schedule_from save_schedule sort_by insert_by lookup insert
schedule_run = refl

toggle_run : toggle_day 3 (1 ∷ 2 ∷ 5 ∷ []) ≡ 1 ∷ 2 ∷ 3 ∷ 5 ∷ []
unfolding toggle_day sort_by insert_by
toggle_run = refl

saved_tabs_read_back_example :
    let rules_last = save_rules to_number rules (save_schedule to_number leb schedule stored) in
    let schedule_last = save_schedule to_number leb schedule (save_rules to_number rules stored) in
    let shown_schedule = record schedule { working_days = sort_by leb (6 ∷ 1 ∷ 3 ∷ []) } in
    ((rules_from show rules_last ≡ rules)
      × (schedule_from show (1 ∷ []) rules_last ≡ shown_schedule))
    × ((rules_from show schedule_last ≡ rules)
        × (schedule_from show (1 ∷ []) schedule_last ≡ shown_schedule))
saved_tabs_read_back_example =
    saved_tabs_read_back show to_number leb (1 ∷ []) (λ t. refl) rules schedule stored
      (refl, (refl, (refl, (refl, (refl, (refl, tt)))))) refl

days_rise : IsAscending (1 ∷ 2 ∷ 5 ∷ [])
days_rise = ((omega arith, (omega arith, tt)), ((omega arith, tt), (tt, tt)))

toggle_day_twice_example :
    (toggle_day 3 (toggle_day 3 (1 ∷ 2 ∷ 5 ∷ [])) ≡ 1 ∷ 2 ∷ 5 ∷ [])
    × IsAscending (toggle_day 3 (1 ∷ 2 ∷ 5 ∷ []))
toggle_day_twice_example = toggle_day_twice 3 (1 ∷ 2 ∷ 5 ∷ []) days_rise
