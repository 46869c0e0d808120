-- ===== src/Salary/Periods.antt =====
-- The table of salary periods (admin-web/src/pages/app/salary/PeriodsTab.tsx). `amount` is the number of a
-- text of money, in its smallest unit, and 0 where the text is no number; `normal` is `trim` followed by
-- `toLowerCase`, and `collate_le` says that `localeCompare` is not positive.
use hr_profi_uz.Attendance.Live.{count_branch}
use hr_profi_uz.Departments.Form.{Department}
use hr_profi_uz.Schedule.Editor.{Delta, back, forward}
use hr_profi_uz.Common.{
  String, Option, none, some, Bool, true, false, List, [], ◌∷◌, ℕ, ◌+◌, ◌-◌, ◌===◌, ◌==◌, ◌&&◌, not,
  ltb, is_blank, if◌then◌else◌, filter_by, sort_by, Entries,
}

pub data PeriodStatus : Type 0 where
  draft finalized approved partially_paid paid : PeriodStatus

pub record SalaryPeriod : Type 0 where
  pub id : String
  pub company_id : String
  pub employee_id : String
  pub year : ℕ
  pub month : ℕ
  pub base_amount : String
  pub bonuses_total : String
  pub deductions_total : String
  pub overtime_amount : String
  pub kpi_amount : String
  pub total_earned : String
  pub paid_amount : String
  pub status : PeriodStatus
  pub finalized_at : Option String
  pub approved_at : Option String
  pub approved_by : Option String
  pub paid_at : Option String
  pub notes : Option String

pub record PeriodWithEmployee : Type 0 where
  pub employee_id : String
  pub employee_code : String
  pub full_name : String
  pub photo_url : Option String
  pub branch_id : Option String
  pub department_id : Option String
  pub position : Option String
  pub period : Option SalaryPeriod
  pub pending_amount : String
  pub has_attendance_today : Bool

pub data SortKey : Type 0 where
  name total_desc total_asc pending_desc by_status : SortKey

pub record Page : Type 0 where
  pub year : ℕ
  pub month : ℕ
  pub query : String
  pub branch_filter : String
  pub dept_filter : String
  pub status_filter : Option PeriodStatus  -- `""` is `none`
  pub sort_key : SortKey

-- The parameters of a request.
pub record Params : Type 0 where
  pub year : ℕ
  pub month : ℕ
  pub branch_id : Option String
  pub department_id : Option String

abbrev pub chosen : String → Option String
chosen filter = if filter === "all" then none else some filter

unfoldable pub period_params : Page → Params
period_params p = record {
  year = p.year;
  month = p.month;
  branch_id = chosen p.branch_filter;
  department_id = chosen p.dept_filter;
}

-- `recomputeBulkMut` has no department, and the two bulk actions have neither.
unfoldable pub recompute_params : Page → Params
recompute_params p = record {
  year = p.year;
  month = p.month;
  branch_id = chosen p.branch_filter;
  department_id = none;
}

unfoldable pub bulk_params : Page → Params
bulk_params p = record { year = p.year; month = p.month; branch_id = none; department_id = none }

-- A branch chip.
unfoldable pub choose_branch : String → Page → Page
choose_branch id p = record p { branch_filter = id; dept_filter = "all" }

unfoldable pub dept_options : String → List Department → List Department
dept_options branch depts =
    if branch === "all" then depts else filter_by (λ d. d.branch_id === branch) depts

unfoldable pub step_month : Delta → Page → Page
step_month back p =
    if ltb (p.month - 1) 1
    then record p { year = p.year - 1; month = 12 }
    else record p { month = p.month - 1 }
step_month forward p =
    if ltb 12 (p.month + 1)
    then record p { year = p.year + 1; month = 1 }
    else record p { month = p.month + 1 }

-- `branchCounts`
unfoldable pub period_counts : List PeriodWithEmployee → Entries ℕ → Entries ℕ
period_counts [] m = m
period_counts (r ∷ rows) m = period_counts rows (count_branch r.branch_id m)

-- `statusRank`
abbrev pub rank : PeriodStatus → ℕ
rank draft = 0
rank finalized = 1
rank approved = 2
rank partially_paid = 3
rank paid = 4

-- A row without a period counts as a draft here.
abbrev pub status_of : Option SalaryPeriod → PeriodStatus
status_of none = draft
status_of (some period) = period.status

abbrev pub has_status : Option PeriodStatus → PeriodStatus → Bool
has_status none s = true
has_status (some wanted) s = rank wanted == rank s

module _ (normal lower : String → String) (includes collate_le : String → String → Bool)
    (amount : String → ℕ) where
  abbrev pub keeps : Page → PeriodWithEmployee → Bool
  keeps p r =
      let q = normal p.query in
      if not (has_status p.status_filter (status_of r.period))
      then false
      else if not (is_blank q)
          && (not (includes (lower r.full_name) q) && not (includes (lower r.employee_code) q))
      then false
      else true

  abbrev pub total_of : Option SalaryPeriod → ℕ
  total_of none = 0
  total_of (some period) = amount period.total_earned

  abbrev pub named_before : PeriodWithEmployee → PeriodWithEmployee → Bool
  named_before a b = collate_le a.full_name b.full_name

  -- A comparator by a number, and by name where the numbers are the same.
  abbrev pub rising : ℕ → ℕ → Bool → Bool
  rising m n then_by = if m == n then then_by else ltb m n

  -- The comparator is not positive: `a` may stand before `b`.
  abbrev pub before : SortKey → PeriodWithEmployee → PeriodWithEmployee → Bool
  before name a b = named_before a b
  before total_desc a b = rising (total_of b.period) (total_of a.period) (named_before a b)
  before total_asc a b = rising (total_of a.period) (total_of b.period) (named_before a b)
  before pending_desc a b =
      rising (amount b.pending_amount) (amount a.pending_amount) (named_before a b)
  before by_status a b =
      rising (rank (status_of a.period)) (rank (status_of b.period)) (named_before a b)

  unfoldable pub filtered : Page → List PeriodWithEmployee → List PeriodWithEmployee
  filtered p rows = sort_by (before p.sort_key) (filter_by (keeps p) rows)
