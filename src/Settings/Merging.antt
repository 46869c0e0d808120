-- ===== src/Settings/Merging.antt =====
-- The two tabs write one object: what each leaves of the other
-- (admin-web/src/pages/app/settings/AttendanceRulesTab.tsx and WorkScheduleTab.tsx).
use hr_profi_uz.Common.{String, Bool, List, Entries, ◌≡◌, ◌∷◌, All, lookup, [], refl}
use hr_profi_uz.Settings.Tabs.{
  Value, Rules, Schedule, rules_from, schedule_from, save_rules, save_schedule, schedule_fields,
  rules_fields,
}
use hr_profi_uz.Settings.Keys.{spread-keeps}

abbrev rules_keys : List String
rules_keys =
    "late_threshold_min" ∷ "late_penalty_per_min" ∷ "overtime_after_hours" ∷ "geofence_radius_m"
    ∷ "face_match_threshold" ∷ "max_devices_per_employee" ∷ "absence_penalty_enabled"
    ∷ "pwa_checkin_enabled" ∷ "kiosk_checkin_enabled" ∷ "face_device_checkin_enabled" ∷ []

abbrev schedule_keys : List String
schedule_keys =
    "working_days" ∷ "working_hours_per_day" ∷ "default_shift_start" ∷ "default_shift_end" ∷ []

module _ {N : Type 0} (show : Value N → String) where
  -- The tab of attendance rules shows what its keys hold.
  rules_from-agree :
      (s t : Entries (Value N))
      → All (λ key. lookup key s ≡ lookup key t) rules_keys
      → rules_from show s ≡ rules_from show t
  unfolding rules_from
  rules_from-agree s t (a, (b, (c, (d, (e, (f, (g, (h, (i, (j, _)))))))))) =
      rw (a, b, c, d, e, f, g, h, i, j) refl

  schedule_from-agree :
      (weekdays : List N) (s t : Entries (Value N))
      → All (λ key. lookup key s ≡ lookup key t) schedule_keys
      → schedule_from show weekdays s ≡ schedule_from show weekdays t
  unfolding schedule_from
  schedule_from-agree weekdays s t (a, (b, (c, (d, _)))) = rw (a, b, c, d) refl

  module _ (to_number : String → N) (le : N → N → Bool) (weekdays : List N) where
    -- Saving the one tab changes nothing that the other shows.
    pub save_keeps_other_tab :
        (r : Rules) (w : Schedule N) (s : Entries (Value N))
        → (rules_from show (save_schedule to_number le w s) ≡ rules_from show s)
          × (schedule_from show weekdays (save_rules to_number r s) ≡ schedule_from show weekdays s)
    unfolding save_rules save_schedule
    save_keeps_other_tab r w s = (
      rules_from-agree _ s (spread-keeps rules_keys s (schedule_fields to_number le w) refl),
      schedule_from-agree weekdays _ s
          (spread-keeps schedule_keys s (rules_fields to_number r) refl),
    )
