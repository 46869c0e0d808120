-- ===== src/Leaves/Requests.antt =====
-- The table of leave requests (admin-web/src/pages/app/leaves/RequestsTab.tsx). `normal` is `trim` followed
-- by `toLowerCase`, `text_lt` is `<` on texts, and `collate_le` says that `localeCompare` is not positive.
use hr_profi_uz.Staff.{Employee}
use hr_profi_uz.Common.{
  String, Option, none, some, Bool, true, false, List, [], ◌∷◌, ℕ, ◌+◌, ◌===◌, ◌==◌, ◌&&◌, not, ltb,
  is_blank, if◌then◌else◌, filter_by, sort_by,
}

pub data LeaveStatus : Type 0 where
  pending approved rejected cancelled : LeaveStatus

pub record LeaveRequest : Type 0 where
  pub id : String
  pub company_id : String
  pub employee_id : String
  pub leave_type_id : String
  pub start_date : String
  pub end_date : String
  pub days : ℕ
  pub reason : Option String
  pub document_url : Option String
  pub override_amount : Option String
  pub status : LeaveStatus
  pub approved_by : Option String
  pub approved_at : Option String
  pub decision_note : Option String
  pub created_at : String
  pub updated_at : String

pub data SortKey : Type 0 where
  newest oldest name days_desc days_asc by_status : SortKey

-- The state of the filters; the status `""` is `none`.
pub record Filters : Type 0 where
  pub status_filter : Option LeaveStatus
  pub query : String
  pub from : String
  pub to : String
  pub sort_key : SortKey

-- `empById.get(id)`: of two employees of one id the later one counts.
unfoldable pub emp_by_id : String → List Employee → Option Employee
emp_by_id id [] = none
emp_by_id id (e ∷ es) = elim (emp_by_id id es) [
  | none ↦ if e.id === id then some e else none
  | some later ↦ some later
]

-- `statusRank`
abbrev pub rank : LeaveStatus → ℕ
rank pending = 0
rank approved = 1
rank rejected = 2
rank cancelled = 3

abbrev pub has_status : Option LeaveStatus → LeaveStatus → Bool
has_status none s = true
has_status (some wanted) s = rank wanted == rank s

abbrev pub name_of : Option Employee → String
name_of none = ""
name_of (some e) = e.full_name

module _ (normal lower : String → String)
    (includes text_lt collate_le : String → String → Bool) where
  abbrev pub matches_query : String → Option Employee → Bool
  matches_query q none = includes (lower "") q
  matches_query q (some e) =
      if includes (lower e.full_name) q then true else includes (lower e.employee_code) q

  -- The test of `filtered`.
  abbrev pub keeps : Filters → List Employee → LeaveRequest → Bool
  keeps f employees r =
      let q = normal f.query in
      if not (has_status f.status_filter r.status)
      then false
      else if not (is_blank q) && not (matches_query q (emp_by_id r.employee_id employees))
      then false
      else if not (is_blank f.from) && text_lt r.end_date f.from
      then false
      else if not (is_blank f.to) && text_lt f.to r.start_date
      then false
      else true

  abbrev pub newer : LeaveRequest → LeaveRequest → Bool
  newer a b = collate_le b.created_at a.created_at

  -- The comparator is not positive: `a` may stand before `b`.
  abbrev pub before : SortKey → List Employee → LeaveRequest → LeaveRequest → Bool
  before newest employees a b = newer a b
  before oldest employees a b = collate_le a.created_at b.created_at
  before name employees a b =
      collate_le (name_of (emp_by_id a.employee_id employees))
        (name_of (emp_by_id b.employee_id employees))
  before days_desc employees a b = if a.days == b.days then newer a b else ltb b.days a.days
  before days_asc employees a b = if a.days == b.days then newer a b else ltb a.days b.days
  before by_status employees a b =
      if rank a.status == rank b.status then newer a b else ltb (rank a.status) (rank b.status)

  unfoldable pub filtered : Filters → List Employee → List LeaveRequest → List LeaveRequest
  filtered f employees requests =
      sort_by (before f.sort_key employees) (filter_by (keeps f employees) requests)

pub record RequestStats : Type 0 where
  pub pending_count : ℕ
  pub approved_count : ℕ
  pub rejected_count : ℕ
  pub days : ℕ

abbrev pub count_request : LeaveStatus → ℕ → RequestStats → RequestStats
count_request pending days s = record s { pending_count = s.pending_count + 1 }
count_request approved days s = record s {
  approved_count = s.approved_count + 1;
  days = s.days + days;
}
count_request rejected days s = record s { rejected_count = s.rejected_count + 1 }
count_request cancelled days s = s

-- The loop of `stats`.
unfoldable pub request_stats : List LeaveRequest → RequestStats → RequestStats
request_stats [] s = s
request_stats (r ∷ rs) s = request_stats rs (count_request r.status r.days s)
