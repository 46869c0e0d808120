-- ===== src/Schedule/Cells.antt =====
-- The cells of the grid (admin-web/src/pages/app/employees/MonthlyScheduleEditor.tsx).
use hr_profi_uz.Common.{
  ◌∷◌, is_blank, false, ◌≤◌, ℕ, ◌+◌, String, if◌then◌else◌, ◌≡◌, List, ◌==◌, arith, some, suc, leb,
  ◌&&◌, zero, ltb, [], refl, subst,
}
use native.Mathlib.Decide.{ℕ_discrete}
use hr_profi_uz.Schedule.Editor.{
  apply_default_pattern, stats, count_cells, cell_value, edit_at, Date, set_cell, Editor, put_edit,
  fill, Stats, date_of, same_date, days_in_month, is_weekend, rest, count_cell,
}

pub edit_at-put_edit :
    (d e : Date) (v : String) (xs : List (Date × String))
    → edit_at e (put_edit d v xs) ≡ (if same_date d e then some v else edit_at e xs)
unfolding edit_at put_edit
edit_at-put_edit d e v [] = refl
edit_at-put_edit d e v ((f, w) ∷ xs) = ground (arith, edit_at-put_edit d e v xs)

-- Setting a cell shows the new value there, and leaves the other cells of the month as they were.
cell_value-set_cell :
    (s : Editor) (d e : ℕ) (v : String)
    → cell_value (set_cell d v s) e ≡ (if d == e then v else cell_value s e)
unfolding cell_value set_cell
cell_value-set_cell s d e v = ground (arith, edit_at-put_edit (date_of s d) (date_of s e) v s.edits)

count_cells-total :
    (s : Editor) (n d : ℕ) (t : Stats)
    → let u = count_cells s n d t in
      u.work + u.resting + u.nothing ≡ t.work + t.resting + t.nothing + n
unfolding count_cells
count_cells-total s zero d t = ground arith
count_cells-total s (suc n) d t =
    ground (arith, count_cells-total s n (d + 1) (count_cell (cell_value s d) t))

-- The three counts of the header add up to the days of the month.
stats-total :
    (s : Editor) → let t = stats s in t.work + t.resting + t.nothing ≡ days_in_month s.year s.month
unfolding stats
stats-total s = ground (
  arith,
  count_cells-total s (days_in_month s.year s.month) 1
      (record { work = 0; resting = 0; nothing = 0 }),
)

module _ (weekday : Date → ℕ) where
  abbrev pub pattern_value : Editor → String → ℕ → String
  pattern_value s template e = if is_weekend weekday (date_of s e) then rest else template

  fill_lem :
      (template : String) (s : Editor) (n d e : ℕ) (xs : List (Date × String))
      → edit_at (date_of s e) (fill weekday template s n d xs) ≡ (
          if leb d e && ltb e (d + n)
          then some (pattern_value s template e)
          else edit_at (date_of s e) xs)
  unfolding fill
  fill_lem template s zero d e xs = ground arith
  fill_lem template s (suc n) d e xs =
      let v = pattern_value s template d in
      let ys = put_edit (date_of s d) v xs in
      elim (ℕ_discrete d e) [
        | yes same ↦
            let head =
              subst (λ f. edit_at (date_of s f) ys ≡ some (pattern_value s template f)) same
                (ground (arith, edit_at-put_edit (date_of s d) (date_of s d) v xs)) in
            ground (arith, head, same, fill_lem template s n (d + 1) e ys)
        | no other ↦ ground (
          arith,
          fill_lem template s n (d + 1) e ys,
          edit_at-put_edit (date_of s d) (date_of s e) v xs,
        )
      ]

  -- With a default template that is not blank, the default pattern makes every day of the month show the template, or rest
  -- on a weekend, whatever the edits and the saved rows were.
  apply_default_pattern-cell_value :
      (s : Editor) (template : String) (e : ℕ)
      → s.default_template_id ≡ some template
      → is_blank template ≡ false
      → 1 ≤ e
      → e ≤ days_in_month s.year s.month
      → cell_value (apply_default_pattern weekday s) e ≡ pattern_value s template e
  unfolding apply_default_pattern cell_value
  apply_default_pattern-cell_value s template e has full low high =
      ground (arith, has, full, fill_lem template s (days_in_month s.year s.month) 1 e s.edits)
