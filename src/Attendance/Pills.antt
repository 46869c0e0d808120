-- ===== src/Attendance/Pills.antt =====
-- The numbers on the pills and chips of the live page against the cards below them
-- (admin-web/src/pages/app/attendance/LiveTab.tsx).
use hr_profi_uz.Attendance.Records.{
  DailyOverviewRow, ShiftStatusLabel, present, late, in_progress, absent, on_leave, rest_day,
  not_scheduled,
}
use hr_profi_uz.Attendance.Live.{
  StatusFilter, all, only, Filters, filtered, is_listed, keeps_status, LiveStats, add_row, add_rows,
  live_stats, pill_count, branch_counts, count_branch, or_zero, is_text, count_if, no_counts,
}
use hr_profi_uz.Common.{
  String, List, [], ◌∷◌, Option, none, some, Bool, true, false, ℕ, ◌+◌, ◌≡◌, refl, arith, Entries,
  lookup, lookup-insert, eq_iff, Bool-cases, inl, inr, filter_by, length, count_by, is_blank, ◌===◌,
  if◌then◌else◌, sym, ◌∙◌, ap,
}

length-filter_by {ℓ} :
    {A : Type ℓ} (f : A → Bool) (xs : List A) → length (filter_by f xs) ≡ count_by f xs
length-filter_by f [] = refl
length-filter_by f (x ∷ xs) = ground (arith, length-filter_by f xs)

count_by-eq {ℓ} :
    {A : Type ℓ} (f g : A → Bool) (xs : List A)
    → ((x : A) → f x ≡ g x)
    → count_by f xs ≡ count_by g xs
count_by-eq f g [] h = refl
count_by-eq f g (x ∷ xs) h = ground (arith, h x, count_by-eq f g xs h)

count_if_lem : (b : Bool) (n : ℕ) → count_if b n ≡ (if b then 1 else 0) + n
count_if_lem true n = omega arith
count_if_lem false n = omega arith

add_row-pill_count :
    (label : ShiftStatusLabel) (r : DailyOverviewRow) (s : LiveStats)
    → pill_count (only label) (add_row r s)
      ≡ (if keeps_status (only label) r then 1 else 0) + pill_count (only label) s
add_row-pill_count present r s = count_if_lem _ _
add_row-pill_count late r s = count_if_lem _ _
add_row-pill_count in_progress r s = count_if_lem _ _
add_row-pill_count absent r s = count_if_lem _ _
add_row-pill_count on_leave r s = count_if_lem _ _
add_row-pill_count rest_day r s = count_if_lem _ _
add_row-pill_count not_scheduled r s = count_if_lem _ _

add_rows-pill_count :
    (label : ShiftStatusLabel) (rows : List DailyOverviewRow) (s : LiveStats)
    → pill_count (only label) (add_rows rows s)
      ≡ count_by (keeps_status (only label)) rows + pill_count (only label) s
unfolding add_rows
add_rows-pill_count label [] s = omega arith
add_rows-pill_count label (r ∷ rows) s =
    omega (arith, add_rows-pill_count label rows (add_row r s), add_row-pill_count label r s)

add_rows-total : (rows : List DailyOverviewRow) (s : LiveStats) → (add_rows rows s).total ≡ s.total
unfolding add_rows
add_rows-total [] s = refl
add_rows-total (r ∷ rows) s = add_rows-total rows (add_row r s)

count_by-all {ℓ} : {A : Type ℓ} (xs : List A) → count_by (λ x. true) xs ≡ length xs
count_by-all [] = refl
count_by-all (x ∷ xs) = omega (arith, count_by-all xs)

pill_count_zero : (label : ShiftStatusLabel) (n : ℕ) → pill_count (only label) (no_counts n) ≡ 0
pill_count_zero present n = refl
pill_count_zero late n = refl
pill_count_zero in_progress n = refl
pill_count_zero absent n = refl
pill_count_zero on_leave n = refl
pill_count_zero rest_day n = refl
pill_count_zero not_scheduled n = refl

live_stats-pill_count :
    (s : StatusFilter) (rows : List DailyOverviewRow)
    → pill_count s (live_stats rows) ≡ count_by (keeps_status s) rows
unfolding live_stats
live_stats-pill_count all rows =
    add_rows-total rows (no_counts (length rows)) ∙ sym (count_by-all rows)
live_stats-pill_count (only label) rows =
    add_rows-pill_count label rows (no_counts (length rows))
    ∙ omega (arith, pill_count_zero label (length rows))

pub count_branch_lem :
    (b : String) (id : Option String) (m : Entries ℕ)
    → is_blank b ≡ false
    → or_zero (lookup b (count_branch id m))
      ≡ or_zero (lookup b m) + (if is_text id b then 1 else 0)
count_branch_lem b none m full = omega arith
count_branch_lem b (some id) m full = elim (Bool-cases (id === b)) [
  | inl e ↦
      let same = (eq_iff id b).0 e in
      let key = ap (λ (k : String). is_blank k) same in
      let old = ap (λ (k : String). or_zero (lookup k m)) same in
      ground (arith, e, key, old, lookup-insert id b (or_zero (lookup id m) + 1) m)
  | inr e ↦ ground (arith, e, lookup-insert id b (or_zero (lookup id m) + 1) m)
]

count_branches :
    (b : String) (rows : List DailyOverviewRow) (m : Entries ℕ)
    → is_blank b ≡ false
    → or_zero (lookup b (branch_counts rows m))
      ≡ or_zero (lookup b m) + count_by (λ r. is_text r.branch_id b) rows
unfolding branch_counts
count_branches b [] m full = omega arith
count_branches b (r ∷ rows) m full = omega (
  arith,
  count_branches b rows (count_branch r.branch_id m) full,
  count_branch_lem b r.branch_id m full,
)

count_branches_all :
    (b : String) (rows : List DailyOverviewRow)
    → is_blank b ≡ false
    → or_zero (lookup b (branch_counts rows [])) ≡ count_by (λ r. is_text r.branch_id b) rows
unfolding lookup
count_branches_all b rows full = omega (arith, count_branches b rows [] full)

module _ (normal lower : String → String) (includes : String → String → Bool) where
  -- When the text of the search box is blank and no branch is chosen, the number on every status pill is
  -- the number of cards that choosing the pill shows.
  pub pills_agree :
      (query : String) (s : StatusFilter) (rows : List DailyOverviewRow)
      → is_blank (normal query) ≡ true
      → length (
          filtered normal lower includes
            (record { query = query; branch_filter = "all"; status_filter = s })
            rows)
        ≡ pill_count s (live_stats rows)
  unfolding filtered
  pills_agree query s rows blank =
      let f : Filters = record { query = query; branch_filter = "all"; status_filter = s } in
      length-filter_by (is_listed normal lower includes f) rows
      ∙ count_by-eq (is_listed normal lower includes f) (keeps_status s) rows
          (λ r. ground (arith, blank))
      ∙ sym (live_stats-pill_count s rows)

  -- When the text of the search box is blank and every status is shown, the number on a branch chip is the
  -- number of cards that choosing the branch shows, if the branch's id is not blank and not the word for all.
  chips_agree :
      (query b : String) (rows : List DailyOverviewRow)
      → is_blank (normal query) ≡ true
      → is_blank b ≡ false
      → (b === "all") ≡ false
      → length (
          filtered normal lower includes
            (record { query = query; branch_filter = b; status_filter = all })
            rows)
        ≡ or_zero (lookup b (branch_counts rows []))
  unfolding filtered
  chips_agree query b rows blank full named =
      let f : Filters = record { query = query; branch_filter = b; status_filter = all } in
      length-filter_by (is_listed normal lower includes f) rows
      ∙ count_by-eq (is_listed normal lower includes f) (λ r. is_text r.branch_id b) rows
          (λ r. ground (arith, blank, named))
      ∙ omega (arith, count_branches_all b rows full)
