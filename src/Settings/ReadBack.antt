-- ===== src/Settings/ReadBack.antt =====
-- What the two tabs show of what they saved
-- (admin-web/src/pages/app/settings/AttendanceRulesTab.tsx and WorkScheduleTab.tsx).
use hr_profi_uz.Common.{
  Entries, String, List, All, ◌∷◌, ◌≡◌, lookup, some, [], All_mono, ◌∙◌, ap, Bool, sort_by, true,
  refl, false,
}
use hr_profi_uz.Settings.Tabs.{
  Value, Rules, Schedule, rules_from, schedule_from, save_rules, save_schedule, number, spread,
  rules_fields, is_on, text, flag, schedule_fields,
}
use hr_profi_uz.Settings.Keys.{lookup-spread, last_of, or_else}
use hr_profi_uz.Settings.Merging.{save_keeps_other_tab}

is_on-flag : (N : Type 0) (b : Bool) → is_on {N = N} (some (flag b)) ≡ b
is_on-flag N true = refl
is_on-flag N false = refl

module _ {N : Type 0} where
  -- The fields that a key occurs in once are read back.
  fields_read :
      (s fields : Entries (Value N)) (asked : Entries (Value N))
      → All (λ f. last_of f.0 fields ≡ some f.1) asked
      → All (λ f. lookup f.0 (spread s fields) ≡ some f.1) asked
  fields_read s fields asked h =
      All_mono _ (λ f. lookup f.0 (spread s fields) ≡ some f.1) asked
        (λ f e. lookup-spread f.0 s fields ∙ ap (λ o. or_else o (lookup f.0 s)) e) h

  module _ (show : Value N → String) (to_number : String → N) where
    -- A text that is shown again after it was read as a number.
    abbrev pub IsCanonical : String → Type 0
    IsCanonical t = show (number (to_number t)) ≡ t

    -- The texts of the numbers of the attendance rules.
    abbrev pub number_texts : Rules → List String
    number_texts r =
        r.late_threshold_min ∷ r.late_penalty_per_min ∷ r.overtime_after_hours ∷ r.geofence_radius_m
        ∷ r.face_match_threshold ∷ r.max_devices_per_employee ∷ []

    rules_from-fields :
        (r : Rules) (s : Entries (Value N))
        → All (λ f. lookup f.0 s ≡ some f.1) (rules_fields to_number r)
        → All IsCanonical (number_texts r)
        → rules_from show s ≡ r
    unfolding rules_from
    rules_from-fields r s (a, (b, (c, (d, (e, (f, (g, (h, (i, (j, _))))))))))
          (ca, (cb, (cc, (cd, (ce, (cf, _)))))) =
        rw (a, b, c, d, e, f, g, h, i, j)
          (rw
            (
              ca,
              cb,
              cc,
              cd,
              ce,
              cf,
              is_on-flag N r.absence_penalty_enabled,
              is_on-flag N r.pwa_checkin_enabled,
              is_on-flag N r.kiosk_checkin_enabled,
              is_on-flag N r.face_device_checkin_enabled,
            )
            refl)

    rules_read_back :
        (r : Rules) (s : Entries (Value N))
        → All IsCanonical (number_texts r)
        → rules_from show (save_rules to_number r s) ≡ r
    unfolding save_rules
    rules_read_back r s cs =
        let fields = rules_fields to_number r in
        rules_from-fields r _
          (fields_read s fields fields
            (refl, (refl, (refl, (refl, (refl, (refl, (refl, (refl, (refl, (refl, tt)))))))))))
          cs

    module _ (le : N → N → Bool) (weekdays : List N)
        (show_text : (t : String) → show (text t) ≡ t) where
      schedule_from-fields :
          (w : Schedule N) (s : Entries (Value N))
          → All (λ f. lookup f.0 s ≡ some f.1) (schedule_fields to_number le w)
          → IsCanonical w.working_hours_per_day
          → schedule_from show weekdays s ≡ record w { working_days = sort_by le w.working_days }
      unfolding schedule_from
      schedule_from-fields w s (a, (b, (c, (d, _)))) e =
          rw (a, b, c, d)
            (rw (e, show_text w.default_shift_start, show_text w.default_shift_end) refl)

      schedule_read_back :
          (w : Schedule N) (s : Entries (Value N))
          → IsCanonical w.working_hours_per_day
          → schedule_from show weekdays (save_schedule to_number le w s)
            ≡ record w { working_days = sort_by le w.working_days }
      unfolding save_schedule
      schedule_read_back w s e =
          let fields = schedule_fields to_number le w in
          schedule_from-fields w _ (fields_read s fields fields (refl, (refl, (refl, (refl, tt)))))
            e

      -- After both tabs were saved one after the other, in either order, each on what the other had
      -- left, both show what was saved, the days sorted, when the texts of the numbers are shown
      -- again as they were read, and texts as they are.
      pub saved_tabs_read_back :
          (r : Rules) (w : Schedule N) (s : Entries (Value N))
          → All IsCanonical (number_texts r)
          → IsCanonical w.working_hours_per_day
          → let rules_last = save_rules to_number r (save_schedule to_number le w s) in
            let schedule_last = save_schedule to_number le w (save_rules to_number r s) in
            let shown_schedule = record w { working_days = sort_by le w.working_days } in
            ((rules_from show rules_last ≡ r)
              × (schedule_from show weekdays rules_last ≡ shown_schedule))
            × ((rules_from show schedule_last ≡ r)
                × (schedule_from show weekdays schedule_last ≡ shown_schedule))
      saved_tabs_read_back r w s cs e =
          let others = save_keeps_other_tab show to_number le weekdays r w in
          (
            (
              rules_read_back r (save_schedule to_number le w s) cs,
              (others (save_schedule to_number le w s)).1 ∙ schedule_read_back w s e,
            ),
            (
              (others (save_rules to_number r s)).0 ∙ rules_read_back r s cs,
              schedule_read_back w (save_rules to_number r s) e,
            ),
          )
