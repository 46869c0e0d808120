-- ===== src/Settings/Tabs.antt =====
-- The attendance rules and the work schedule: admin-web/src/pages/app/settings/AttendanceRulesTab.tsx
-- and WorkScheduleTab.tsx in the same folder. `N` is the type of JavaScript's numbers, `to_number`
-- is `Number` on texts, and `show` is `String`.
use hr_profi_uz.Common.{
  Bool, Option, Entries, List, String, ◌∷◌, lookup, sort_by, some, insert, true, none, [], false,
}

-- A value of the `settings` object.
pub data Value (N : Type 0) : Type 0 where
  null : Value N
  number : N → Value N
  flag : Bool → Value N
  text : String → Value N
  numbers : List N → Value N

-- The state of the tab of attendance rules.
pub record Rules : Type 0 where
  pub late_threshold_min : String
  pub late_penalty_per_min : String
  pub overtime_after_hours : String
  pub geofence_radius_m : String
  pub face_match_threshold : String
  pub max_devices_per_employee : String
  pub absence_penalty_enabled : Bool
  pub pwa_checkin_enabled : Bool
  pub kiosk_checkin_enabled : Bool
  pub face_device_checkin_enabled : Bool

-- The state of the tab of the work schedule.
pub record Schedule (N : Type 0) : Type 0 where
  pub working_days : List N
  pub working_hours_per_day : String
  pub default_shift_start : String
  pub default_shift_end : String

module _ {N : Type 0} where
  -- `s.key !== false`
  abbrev pub is_on : Option (Value N) → Bool
  is_on (some (flag false)) = false
  is_on _ = true

  module _ (show : Value N → String) where
    -- `String(s.key ?? default)`
    abbrev pub shown : String → Option (Value N) → String
    shown default none = default
    shown default (some null) = default
    shown default (some value) = show value

    -- `fromCompany` of the attendance rules
    unfoldable pub rules_from : Entries (Value N) → Rules
    rules_from s = record {
      late_threshold_min = shown "5" (lookup "late_threshold_min" s);
      late_penalty_per_min = shown "0" (lookup "late_penalty_per_min" s);
      overtime_after_hours = shown "8" (lookup "overtime_after_hours" s);
      geofence_radius_m = shown "150" (lookup "geofence_radius_m" s);
      face_match_threshold = shown "0.85" (lookup "face_match_threshold" s);
      max_devices_per_employee = shown "2" (lookup "max_devices_per_employee" s);
      absence_penalty_enabled = is_on (lookup "absence_penalty_enabled" s);
      pwa_checkin_enabled = is_on (lookup "pwa_checkin_enabled" s);
      kiosk_checkin_enabled = is_on (lookup "kiosk_checkin_enabled" s);
      face_device_checkin_enabled = is_on (lookup "face_device_checkin_enabled" s);
    }

    -- `Array.isArray(s.working_days)`; `weekdays` is `[1, 2, 3, 4, 5]`.
    abbrev pub days_or : List N → Option (Value N) → List N
    days_or weekdays (some (numbers days)) = days
    days_or weekdays _ = weekdays

    -- `fromCompany` of the work schedule
    unfoldable pub schedule_from : List N → Entries (Value N) → Schedule N
    schedule_from weekdays s = record {
      working_days = days_or weekdays (lookup "working_days" s);
      working_hours_per_day = shown "8" (lookup "working_hours_per_day" s);
      default_shift_start = shown "09:00" (lookup "default_shift_start" s);
      default_shift_end = shown "18:00" (lookup "default_shift_end" s);
    }

  -- `{ ...existing, ...fields }`
  abbrev pub spread : Entries (Value N) → Entries (Value N) → Entries (Value N)
  spread s [] = s
  spread s ((key, value) ∷ fields) = spread (insert key value s) fields

  module _ (to_number : String → N) where
    -- The fields that the save of the attendance rules writes.
    abbrev pub rules_fields : Rules → Entries (Value N)
    rules_fields f =
        ("late_threshold_min", number (to_number f.late_threshold_min))
        ∷ ("late_penalty_per_min", number (to_number f.late_penalty_per_min))
        ∷ ("overtime_after_hours", number (to_number f.overtime_after_hours))
        ∷ ("geofence_radius_m", number (to_number f.geofence_radius_m))
        ∷ ("face_match_threshold", number (to_number f.face_match_threshold))
        ∷ ("max_devices_per_employee", number (to_number f.max_devices_per_employee))
        ∷ ("absence_penalty_enabled", flag f.absence_penalty_enabled)
        ∷ ("pwa_checkin_enabled", flag f.pwa_checkin_enabled)
        ∷ ("kiosk_checkin_enabled", flag f.kiosk_checkin_enabled)
        ∷ ("face_device_checkin_enabled", flag f.face_device_checkin_enabled)
        ∷ []

    -- `saveMut` of the attendance rules: the settings that are sent.
    unfoldable pub save_rules : Rules → Entries (Value N) → Entries (Value N)
    save_rules f existing = spread existing (rules_fields f)

    module _ (le : N → N → Bool) where
      -- The fields that the save of the work schedule writes.
      abbrev pub schedule_fields : Schedule N → Entries (Value N)
      schedule_fields f =
          ("working_days", numbers (sort_by le f.working_days))
          ∷ ("working_hours_per_day", number (to_number f.working_hours_per_day))
          ∷ ("default_shift_start", text f.default_shift_start)
          ∷ ("default_shift_end", text f.default_shift_end)
          ∷ []

      -- `saveMut` of the work schedule: the settings that are sent.
      unfoldable pub save_schedule : Schedule N → Entries (Value N) → Entries (Value N)
      save_schedule f existing = spread existing (schedule_fields f)
