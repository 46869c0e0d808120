-- ===== src/Salary/Chips.antt =====
-- The numbers on the branch chips after a branch was chosen
-- (admin-web/src/pages/app/salary/PeriodsTab.tsx).
use hr_profi_uz.Attendance.Live.{or_zero, is_text, count_branch}
use hr_profi_uz.Attendance.Pills.{count_branch_lem}
use hr_profi_uz.Salary.Periods.{
  PeriodWithEmployee, Page, period_params, choose_branch, period_counts,
}
use hr_profi_uz.Common.{
  String, some, false, List, [], ◌∷◌, ℕ, ◌+◌, ◌≡◌, arith, Entries, lookup, is_blank, ◌===◌, All,
  count_by, length, if◌then◌else◌, ◌∙◌,
}

period_counts_lem :
    (b : String) (rows : List PeriodWithEmployee) (m : Entries ℕ)
    → is_blank b ≡ false
    → or_zero (lookup b (period_counts rows m))
      ≡ or_zero (lookup b m) + count_by (λ r. is_text r.branch_id b) rows
unfolding period_counts
period_counts_lem b [] m full = omega arith
period_counts_lem b (r ∷ rows) m full = omega (
  arith,
  period_counts_lem b rows (count_branch r.branch_id m) full,
  count_branch_lem b r.branch_id m full,
)

one_branch :
    (b c : String) (rows : List PeriodWithEmployee)
    → All (λ r. r.branch_id ≡ some b) rows
    → count_by (λ r. is_text r.branch_id c) rows ≡ (if b === c then length rows else 0)
one_branch b c [] h = ground arith
one_branch b c (r ∷ rows) (h, hs) = ground (arith, h, one_branch b c rows hs)

-- After a branch was chosen, whose id is not the word for all, the request asks for that branch; when the
-- server answers with rows of that branch only, its chip shows how many they are, and the chip of every
-- other branch with an id that is not blank shows 0.
chips_after_choice :
    (p : Page) (b c : String) (rows : List PeriodWithEmployee)
    → (b === "all") ≡ false
    → is_blank c ≡ false
    → All (λ r. r.branch_id ≡ some b) rows
    → ((period_params (choose_branch b p)).branch_id ≡ some b)
      × (or_zero (lookup c (period_counts rows [])) ≡ (if b === c then length rows else 0))
unfolding period_params choose_branch lookup
chips_after_choice p b c rows named full answered = (
  ground (arith, named),
  omega (arith, period_counts_lem c rows [] full) ∙ one_branch b c rows answered,
)
