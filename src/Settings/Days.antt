-- ===== src/Settings/Days.antt =====
-- The working days of a week (admin-web/src/pages/app/settings/WorkScheduleTab.tsx), numbers from 1
-- to 7, for which the order of `.sort()`, that of their texts, is the order of the numbers.
use hr_profi_uz.Common.{
  List, ℕ, Bool, ◌∷◌, if◌then◌else◌, filter_by, [], false, ◌==◌, not, ◌||◌, sort_by, leb, ◌++◌,
}

abbrev pub includes : ℕ → List ℕ → Bool
includes d [] = false
includes d (x ∷ xs) = (x == d) || includes d xs

-- `toggleDay`
unfoldable pub toggle_day : ℕ → List ℕ → List ℕ
toggle_day iso days =
    if includes iso days
    then filter_by (λ d. not (d == iso)) days
    else sort_by leb (days ++ iso ∷ [])

-- `presetWorkdays`
abbrev pub preset_workdays : List (List ℕ)
preset_workdays =
    (1 ∷ 2 ∷ 3 ∷ 4 ∷ 5 ∷ []) ∷ (1 ∷ 2 ∷ 3 ∷ 4 ∷ 5 ∷ 6 ∷ []) ∷ (1 ∷ 2 ∷ 3 ∷ 4 ∷ 5 ∷ 6 ∷ 7 ∷ []) ∷ []
