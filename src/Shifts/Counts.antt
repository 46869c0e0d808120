-- ===== src/Shifts/Counts.antt =====
-- `visibleStats` (admin-web/src/pages/app/shifts/SchedulePanel.tsx). `percent` is
-- `Math.round((part / total) * 100)` of the platform's numbers.
use hr_profi_uz.Schedule.Editor.{Stats, count_cell}
use hr_profi_uz.Shifts.Panel.{Panel, cell_value, days}
use hr_profi_uz.Staff.{Employee}
use hr_profi_uz.Common.{
  String, List, [], ◌∷◌, ℕ, zero, suc, ◌+◌, ◌*◌, ◌==◌, if◌then◌else◌, length, ◌≡◌, ◌≤◌, arith, refl,
}

pub record VisibleStats : Type 0 where
  pub work : ℕ
  pub resting : ℕ
  pub nothing : ℕ
  pub total : ℕ
  pub coverage : ℕ

-- The inner loop over `n` days from `d` on.
unfoldable pub count_row : Panel → String → ℕ → ℕ → Stats → Stats
count_row p employee zero d t = t
count_row p employee (suc n) d t =
    count_row p employee n (d + 1) (count_cell (cell_value p employee d) t)

unfoldable pub count_rows : Panel → List Employee → Stats → Stats
count_rows p [] t = t
count_rows p (e ∷ es) t = count_rows p es (count_row p e.id (days p) 1 t)

abbrev sum : Stats → ℕ
sum t = t.work + t.resting + t.nothing

count_row-total :
    (p : Panel) (employee : String) (n d : ℕ) (t : Stats)
    → sum (count_row p employee n d t) ≡ sum t + n
unfolding count_row
count_row-total p employee zero d t = ground arith
count_row-total p employee (suc n) d t =
    ground (arith, count_row-total p employee n (d + 1) (count_cell (cell_value p employee d) t))

count_rows-total :
    (p : Panel) (es : List Employee) (t : Stats)
    → sum (count_rows p es t) ≡ sum t + length es * days p
unfolding count_rows
count_rows-total p [] t = omega arith
count_rows-total p (e ∷ es) t = omega (
  arith,
  count_rows-total p es (count_row p e.id (days p) 1 t),
  count_row-total p e.id (days p) 1 t,
)

module _ (percent : ℕ → ℕ → ℕ) where
  unfoldable pub visible_stats : List Employee → Panel → VisibleStats
  unfolding count_rows count_row
  visible_stats shown p =
      let t = count_rows p shown (record { work = 0; resting = 0; nothing = 0 }) in
      let total = length shown * days p in
      record {
        work = t.work;
        resting = t.resting;
        nothing = t.nothing;
        total = total;
        coverage = if total == 0 then 0 else percent (t.work + t.resting) total;
      }

  -- When a rounded share never falls as the part grows and the whole is a hundred percent, the three counts
  -- add up to the total, which is one for each employee and day, and the coverage is at most a hundred.
  visible_stats_bounds :
      (shown : List Employee) (p : Panel)
      → ((a b n : ℕ) → a ≤ b → percent a n ≤ percent b n)
      → ((n : ℕ) → 1 ≤ n → percent n n ≡ 100)
      → let s = visible_stats shown p in
        (s.work + s.resting + s.nothing ≡ s.total)
        × (s.total ≡ length shown * days p)
        × (s.coverage ≤ 100)
  unfolding visible_stats
  visible_stats_bounds shown p grows whole =
      let t = count_rows p shown (record { work = 0; resting = 0; nothing = 0 }) in
      let total = length shown * days p in
      let adds : sum t ≡ total =
        omega (arith, count_rows-total p shown (record { work = 0; resting = 0; nothing = 0 })) in
      (
        adds,
        refl,
        ground (
          arith,
          adds,
          grows (t.work + t.resting) total total (omega (arith, adds)),
          whole total,
        ),
      )
