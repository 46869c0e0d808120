-- ===== src/Format/Badges.antt =====
-- The badges of states and kinds (admin-web/src/pages/app/attendance/utils.ts,
-- admin-web/src/pages/app/kpi/utils.ts, admin-web/src/pages/app/users/utils.ts).
use hr_profi_uz.Users.Form.{
  Role, UserStatus, owner, company_admin, hr_manager, branch_manager, employee_role, device_role,
  active, invited, suspended, terminated,
}
use hr_profi_uz.Common.{String}

-- The colours that a badge can have.
data Tone : Type 0 where
  success warning danger info default : Tone

data ShiftStatusLabel : Type 0 where
  present late in_progress absent on_leave rest_day not_scheduled : ShiftStatusLabel

record ShiftTone : Type 0 where
  badge : Tone
  ring : String

unfoldable shift_status_tone : ShiftStatusLabel → ShiftTone
shift_status_tone in_progress = record { badge = info; ring = "ring-emerald-300" }
shift_status_tone present = record { badge = success; ring = "ring-emerald-200" }
shift_status_tone late = record { badge = warning; ring = "ring-amber-300" }
shift_status_tone absent = record { badge = danger; ring = "ring-rose-300" }
shift_status_tone on_leave = record { badge = info; ring = "ring-indigo-300" }
shift_status_tone rest_day = record { badge = default; ring = "ring-slate-200" }
shift_status_tone not_scheduled = record { badge = default; ring = "ring-slate-200" }

data AssignmentStatus : Type 0 where
  draft running computed approved paid rejected cancelled completed : AssignmentStatus

record AssignmentTone : Type 0 where
  badge : Tone
  bar : String

unfoldable assignment_tone : AssignmentStatus → AssignmentTone
assignment_tone draft = record { badge = default; bar = "bg-slate-300" }
assignment_tone running = record { badge = info; bar = "bg-sky-400" }
assignment_tone computed = record { badge = info; bar = "bg-indigo-400" }
assignment_tone approved = record { badge = success; bar = "bg-emerald-400" }
assignment_tone paid = record { badge = success; bar = "bg-emerald-600" }
assignment_tone rejected = record { badge = danger; bar = "bg-rose-500" }
assignment_tone cancelled = record { badge = default; bar = "bg-slate-400" }
assignment_tone completed = record { badge = success; bar = "bg-emerald-500" }

data Category : Type 0 where
  attendance sales tasks quality manager_review goal custom : Category

unfoldable category_color : Category → String
category_color attendance = "text-sky-700 bg-sky-50 ring-sky-200"
category_color sales = "text-emerald-700 bg-emerald-50 ring-emerald-200"
category_color tasks = "text-brand-700 bg-brand-50 ring-brand-200"
category_color quality = "text-indigo-700 bg-indigo-50 ring-indigo-200"
category_color manager_review = "text-amber-700 bg-amber-50 ring-amber-200"
category_color goal = "text-purple-700 bg-purple-50 ring-purple-200"
category_color custom = "text-slate-700 bg-slate-100 ring-slate-200"

data RewardType : Type 0 where
  fixed percent_of_salary per_unit tiered penalty_percent : RewardType

unfoldable reward_label : RewardType → String
reward_label fixed = "$"
reward_label percent_of_salary = "%"
reward_label per_unit = "×"
reward_label tiered = "▦"
reward_label penalty_percent = "↓%"

unfoldable role_tone : Role → Tone
role_tone owner = danger
role_tone company_admin = info
role_tone hr_manager = success
role_tone branch_manager = warning
role_tone employee_role = default
role_tone device_role = default

unfoldable status_tone : UserStatus → Tone
status_tone active = success
status_tone invited = warning
status_tone suspended = danger
status_tone terminated = default
