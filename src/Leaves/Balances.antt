-- ===== src/Leaves/Balances.antt =====
-- The balances of leave days (admin-web/src/pages/app/leaves/BalancesTab.tsx). A number of days is
-- whole; what remains is negative when more was used than allowed. `normal` trims a text and makes it
-- lower case, `lower` makes it lower case, `includes` finds a text in a text, and `name_le` is the
-- order of names.
use hr_profi_uz.Common.{
  String, List, Option, ℕ, Bool, ◌&&◌, Entries, sort_by, true, if◌then◌else◌, leb, false, ◌∷◌,
  filter_by, some, ◌==◌, insert, is_blank, ◌+◌, [], not, ltb, ◌++◌, ◌||◌, none, ◌===◌, length,
  lookup, map, any,
}

pub data ℤ : Type 0 where
  pos : ℕ → ℤ
  negsuc : ℕ → ℤ

abbrev pub le_int : ℤ → ℤ → Bool
le_int (pos a) (pos b) = leb a b
le_int (pos a) (negsuc b) = false
le_int (negsuc a) (pos b) = true
le_int (negsuc a) (negsuc b) = leb b a

pub record LeaveBalanceRow : Type 0 where
  pub employee_id : String
  pub employee_code : String
  pub full_name : String
  pub photo_url : Option String
  pub leave_type_id : String
  pub leave_type_name : String
  pub paid : Bool
  pub max_days_per_year : Option ℕ
  pub used_days : ℕ
  pub remaining : Option ℤ
  pub total_paid_amount : String

pub data SortKey : Type 0 where
  by_name used_desc used_asc remaining_asc over_cap : SortKey

pub record Filters : Type 0 where
  pub query : String
  -- `none` is "all", `some true` is "paid".
  pub paid_filter : Option Bool
  -- `none` is "all".
  pub type_filter : Option String

abbrev pub has_paid : Option Bool → Bool → Bool
has_paid none paid = true
has_paid (some true) paid = paid
has_paid (some false) paid = not paid

abbrev pub has_type : Option String → String → Bool
has_type none id = true
has_type (some wanted) id = id === wanted

-- `r.max_days_per_year != null && r.used_days > r.max_days_per_year`
abbrev pub exceeds : Option ℕ → ℕ → Bool
exceeds none used = false
exceeds (some cap) used = ltb cap used

abbrev pub is_over : LeaveBalanceRow → Bool
is_over r = exceeds r.max_days_per_year r.used_days

-- `?? Number.POSITIVE_INFINITY`, compared
abbrev pub le_remaining : Option ℤ → Option ℤ → Bool
le_remaining a none = true
le_remaining none (some b) = false
le_remaining (some a) (some b) = le_int a b

module _ (normal lower : String → String) (includes : String → String → Bool) where
  abbrev pub keeps : Filters → LeaveBalanceRow → Bool
  keeps f r =
      let q = normal f.query in
      has_paid f.paid_filter r.paid
      && (has_type f.type_filter r.leave_type_id
          && (is_blank q || (includes (lower r.full_name) q || includes (lower r.employee_code) q)))

  unfoldable pub filtered_rows : Filters → List LeaveBalanceRow → List LeaveBalanceRow
  filtered_rows f rows = filter_by (keeps f) rows

module _ (name_le : String → String → Bool) where
  -- The comparator is not positive: `a` may stand before `b`.
  abbrev pub before : SortKey → LeaveBalanceRow → LeaveBalanceRow → Bool
  before by_name a b = name_le a.full_name b.full_name
  before used_desc a b =
      if a.used_days == b.used_days
      then name_le a.full_name b.full_name
      else ltb b.used_days a.used_days
  before used_asc a b =
      if a.used_days == b.used_days
      then name_le a.full_name b.full_name
      else ltb a.used_days b.used_days
  before remaining_asc a b =
      if le_remaining a.remaining b.remaining
      then (if le_remaining b.remaining a.remaining then name_le a.full_name b.full_name else true)
      else false
  before over_cap a b =
      if is_over a
      then (if is_over b then name_le a.full_name b.full_name else true)
      else (if is_over b then false else name_le a.full_name b.full_name)

  unfoldable pub sorted_flat : SortKey → List LeaveBalanceRow → List LeaveBalanceRow
  sorted_flat key rows = sort_by (before key) rows

-- The card of an employee
pub record Group : Type 0 where
  pub full_name : String
  pub employee_code : String
  pub photo_url : Option String
  pub rows : List LeaveBalanceRow

abbrev pub with_row : LeaveBalanceRow → Option Group → Group
with_row r none = record {
  full_name = r.full_name;
  employee_code = r.employee_code;
  photo_url = r.photo_url;
  rows = r ∷ [];
}
with_row r (some g) = record g { rows = g.rows ++ r ∷ [] }

-- `map` of `byEmployee`
unfoldable pub by_employee : List LeaveBalanceRow → Entries Group → Entries Group
by_employee [] m = m
by_employee (r ∷ rs) m =
    by_employee rs (insert r.employee_id (with_row r (lookup r.employee_id m)) m)

-- `Math.max(...used, 0)`
abbrev pub max_used : List LeaveBalanceRow → ℕ
max_used [] = 0
max_used (r ∷ rs) = let rest = max_used rs in if leb r.used_days rest then rest else r.used_days

module _ (name_le : String → String → Bool) where
  -- The comparator of the cards is not positive.
  abbrev pub card_before : SortKey → Group → Group → Bool
  card_before used_desc a b = leb (max_used b.rows) (max_used a.rows)
  card_before used_asc a b = leb (max_used a.rows) (max_used b.rows)
  card_before over_cap a b =
      if any is_over a.rows
      then (if any is_over b.rows then name_le a.full_name b.full_name else true)
      else (if any is_over b.rows then false else name_le a.full_name b.full_name)
  card_before _ a b = name_le a.full_name b.full_name

  abbrev pub sorted_card : Group → Group
  sorted_card g = record g {
    rows = sort_by (λ a b. name_le a.leave_type_name b.leave_type_name) g.rows;
  }

  -- `byEmployee`, without the ids
  unfoldable pub cards : SortKey → List LeaveBalanceRow → List Group
  unfolding by_employee
  cards key rows =
      map sorted_card
        (sort_by (card_before key) (map (λ (e : String × Group). e.1) (by_employee rows [])))

-- `totals`
pub record Totals : Type 0 where
  pub used_paid : ℕ
  pub used_unpaid : ℕ
  pub over : ℕ

abbrev pub used : List LeaveBalanceRow → ℕ
used [] = 0
used (r ∷ rs) = r.used_days + used rs

unfoldable pub totals : List LeaveBalanceRow → Totals
totals rows = record {
  used_paid = used (filter_by LeaveBalanceRow.paid rows);
  used_unpaid = used (filter_by (λ r. not r.paid) rows);
  over = length (filter_by is_over rows);
}
