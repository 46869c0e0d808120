-- ===== src/Format/Durations.antt =====
-- Durations and ages (admin-web/src/pages/app/attendance/utils.ts, timeAgo of
-- admin-web/src/pages/app/devices/utils.ts). `show` writes a number in digits. Minutes are whole and not
-- negative, as `Math.floor` and `Math.max(0, …)` leave them.
use Prim.Native.String
use hr_profi_uz.Common.{ℕ, String, Option, if◌then◌else◌, ◌==◌, ltb, some, ◌-◌, ◌%◌, ◌/◌, none}

infixr 60 ◌+++◌
abbrev pub ◌+++◌ : String → String → String
s +++ t = String.◌++◌ s t

module _ (show : ℕ → String) where
  -- `String(m).padStart(2, "0")`
  abbrev pub pad_2 : ℕ → String
  pad_2 m = if ltb m 10 then "0" +++ show m else show m

  unfoldable pub fmt_hm : ℕ → String
  fmt_hm total = if total == 0 then "0:00" else show (total / 60) +++ (":" +++ pad_2 (total % 60))

  unfoldable pub fmt_duration_short : String → String → ℕ → String
  fmt_duration_short hour minute total =
      if ltb total 60
      then show total +++ minute
      else if total % 60 == 0
      then show (total / 60) +++ hour
      else show (total / 60) +++ (hour +++ (" " +++ (show (total % 60) +++ minute)))

  abbrev pub age : ℕ → String
  age sec =
      if ltb sec 60
      then show sec +++ "s"
      else if ltb sec 3600
      then show (sec / 60) +++ "m"
      else if ltb sec 86400
      then show (sec / 3600) +++ "h"
      else show (sec / 86400) +++ "d"

  -- `iso` is the time that the text stands for, in milliseconds; a blank text counts as none. The seconds
  -- are negative exactly where the time is after now.
  unfoldable pub time_ago : ℕ → Option ℕ → String
  time_ago now none = "—"
  time_ago now (some then_ms) = if ltb now then_ms then "—" else age ((now - then_ms) / 1000)
