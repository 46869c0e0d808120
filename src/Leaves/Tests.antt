-- ===== src/Leaves/Tests.antt =====
-- The leave requests at concrete values.
use hr_profi_uz.Leaves.Requests.{
  LeaveRequest, LeaveStatus, pending, approved, Filters, by_status, filtered, keeps,
}
use hr_profi_uz.Leaves.Balances.{LeaveBalanceRow, SortKey, sorted_flat, totals, pos, negsuc}
use hr_profi_uz.Leaves.Ordering.{requests_table, IsOrdered, IsWanted}
use mathlib.Core.List.{Perm}
use hr_profi_uz.Common.{
  String, Bool, true, none, List, [], ◌∷◌, ℕ, ◌≡◌, ◌⊎◌, inl, inr, refl, arith, filter_by, ◌||◌, not,
  is_blank, map, sort_by, Bool-cases, insert_by, some, if◌then◌else◌, leb, ◌-◌, false,
}

abbrev request : String → LeaveStatus → ℕ → LeaveRequest
request id status days = record {
  id = id;
  company_id = "c1";
  employee_id = "e1";
  leave_type_id = "t1";
  start_date = "2024-02-01";
  end_date = "2024-02-05";
  days = days;
  reason = none;
  document_url = none;
  override_amount = none;
  status = status;
  approved_by = none;
  approved_at = none;
  decision_note = none;
  created_at = "2024-01-01";
  updated_at = "2024-01-01";
}

abbrev requests : List LeaveRequest
requests = request "r1" approved 5 ∷ request "r2" pending 3 ∷ []

abbrev filters : Filters
filters = record { status_filter = none; query = ""; from = ""; to = ""; sort_key = by_status }

abbrev as_typed : String → String
as_typed s = s

abbrev never : String → String → Bool
never s t = not true

-- Blank texts come first.
abbrev blank_first : String → String → Bool
blank_first s t = is_blank s || not (is_blank t)

blank_first_total : (s t : String) → (blank_first s t ≡ true) ⊎ (blank_first t s ≡ true)
blank_first_total s t = elim (Bool-cases (blank_first s t)) [
  | inl e ↦ inl e
  | inr e ↦ inr (ground (arith, e))
]

blank_first_trans :
    (s t u : String) → blank_first s t ≡ true → blank_first t u ≡ true → blank_first s u ≡ true
blank_first_trans s t u h k = ground arith

table_run :
    map LeaveRequest.id (filtered as_typed as_typed never never blank_first filters [] requests)
    ≡ "r2" ∷ "r1" ∷ []
unfolding filtered sort_by
table_run = refl

requests_table_example :
    let table = filtered as_typed as_typed never never blank_first filters [] requests in
    let kept = keeps as_typed as_typed never never blank_first filters [] in
    let r = request "r1" pending 3 in
    Perm table (filter_by kept requests)
    × IsOrdered as_typed as_typed never never blank_first blank_first_total blank_first_trans
        by_status [] table
    × (((kept r ≡ true)
          × IsWanted as_typed as_typed never never blank_first blank_first_total blank_first_trans
              filters [] r)
        ⊎ ((kept r ≡ false)
            × (¬ IsWanted as_typed as_typed never never blank_first blank_first_total
                blank_first_trans filters [] r)))
requests_table_example =
    requests_table as_typed as_typed never never blank_first blank_first_total blank_first_trans
      filters [] requests (request "r1" pending 3)

abbrev balance : String → ℕ → LeaveBalanceRow
balance name days = record {
  employee_id = name;
  employee_code = name;
  full_name = name;
  photo_url = none;
  leave_type_id = "t1";
  leave_type_name = "Annual";
  paid = true;
  max_days_per_year = some 5;
  used_days = days;
  remaining = some (if leb days 5 then pos (5 - days) else negsuc (days - 6));
  total_paid_amount = "0";
}

abbrev balances : List LeaveBalanceRow
balances = balance "Aziza" 5 ∷ balance "Bek" 7 ∷ balance "Dilnoza" 2 ∷ []

balances_by_remaining :
    map LeaveBalanceRow.full_name (sorted_flat blank_first SortKey.remaining_asc balances)
    ≡ "Bek" ∷ "Aziza" ∷ "Dilnoza" ∷ []
unfolding sorted_flat sort_by insert_by
balances_by_remaining = refl

totals_over : (totals balances).over ≡ 1
unfolding totals
totals_over = refl
