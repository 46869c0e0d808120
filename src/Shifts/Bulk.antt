-- ===== src/Shifts/Bulk.antt =====
-- `applyDefaultAll` against the action on every row in turn
-- (admin-web/src/pages/app/shifts/SchedulePanel.tsx).
use hr_profi_uz.Shifts.Panel.{Panel, Edits, days}
use hr_profi_uz.Shifts.Actions.{
  entries, fill_row, apply_default_row, fill_all, apply_default_all, sent_all, template_of, settled,
}
use hr_profi_uz.Staff.{Employee}
use hr_profi_uz.Schedule.Editor.{Date, ShiftSchedule}
use hr_profi_uz.Common.{
  List, ℕ, ◌∷◌, All, String, [], ◌≡◌, find_by, ◌===◌, false, some, suc, ◌+◌, zero, refl,
  Option-cases, arith, ◌∙◌, ap, eq_iff, Option, inl, inr, true, sym,
}

-- No two of the employees have one id.
abbrev pub HasIds : List Employee → Type 0
HasIds [] = Unit
HasIds (e ∷ es) = All (λ f. (e.id === f.id) ≡ false) es × HasIds es

module _ (weekday : Date → ℕ) where
  -- "Reset to default" on the rows, one after another.
  abbrev pub rows_in_turn : List Employee → List Employee → Panel → Panel
  rows_in_turn shown [] p = p
  rows_in_turn shown (e ∷ es) p = rows_in_turn shown es (apply_default_row weekday shown e.id p)

  fill_row-edits :
      (p : Panel) (employee tpl : String) (n d : ℕ) (xs ys : Edits)
      → fill_row weekday (record p { edits = ys }) employee tpl n d xs
        ≡ fill_row weekday p employee tpl n d xs
  unfolding fill_row
  fill_row-edits p employee tpl zero d xs ys = refl
  fill_row-edits p employee tpl (suc n) d xs ys = fill_row-edits p employee tpl n (d + 1) _ ys

  apply_default_row_found :
      (shown : List Employee) (e : Employee) (p : Panel) (xs : Edits)
      → find_by (λ x. x.id === e.id) shown ≡ some e
      → apply_default_row weekday shown e.id (record p { edits = xs })
        ≡ record p { edits = fill_all weekday p (e ∷ []) xs }
  unfolding apply_default_row fill_all
  apply_default_row_found shown e p xs found = elim (Option-cases (template_of (some e))) [
    | inl missing ↦ rw (found, missing, apply_default_row, fill_all) refl
    | inr (tpl, given) ↦
        rw (found, given, apply_default_row, fill_all)
          (ap (λ (z : Edits). record p { edits = z }) (fill_row-edits p e.id tpl (days p) 1 xs xs))
  ]

  fill_all-cons :
      (p : Panel) (e : Employee) (es : List Employee) (xs : Edits)
      → fill_all weekday p es (fill_all weekday p (e ∷ []) xs) ≡ fill_all weekday p (e ∷ es) xs
  unfolding fill_all
  fill_all-cons p e es xs = elim (Option-cases (template_of (some e))) [
    | inl missing ↦ rw (missing, fill_all) refl
    | inr (tpl, given) ↦ rw (given, fill_all) refl
  ]

  in_turn :
      (shown es : List Employee) (p : Panel) (xs : Edits)
      → All (λ e. find_by (λ x. x.id === e.id) shown ≡ some e) es
      → rows_in_turn shown es (record p { edits = xs })
        ≡ record p { edits = fill_all weekday p es xs }
  unfolding fill_all
  in_turn shown [] p xs found = refl
  in_turn shown (e ∷ es) p xs (here, later) = rw (apply_default_row_found shown e p xs here) (
      in_turn shown es p (fill_all weekday p (e ∷ []) xs) later
      ∙ ap (λ (z : Edits). record p { edits = z }) (fill_all-cons p e es xs))

find_later :
    (e : Employee) (shown fs : List Employee)
    → All (λ f. (e.id === f.id) ≡ false) fs
    → All (λ f. find_by (λ x. x.id === f.id) shown ≡ some f) fs
    → All (λ f. find_by (λ x. x.id === f.id) (e ∷ shown) ≡ some f) fs
find_later e shown [] hs ks = tt
find_later e shown (f ∷ fs) (h, hs) (k, ks) = (ground (arith, h, k), find_later e shown fs hs ks)

-- Every employee of the list is the one that its id finds.
HasIds-found :
    (shown : List Employee)
    → HasIds shown
    → All (λ e. find_by (λ x. x.id === e.id) shown ≡ some e) shown
HasIds-found [] ids = tt
HasIds-found (e ∷ es) (fresh, ids) =
    (ground (arith, eq_iff e.id e.id), find_later e es es fresh (HasIds-found es ids))

module _ (weekday : Date → ℕ) where
  -- When there are employees, no two of them with one id, and the question is answered with yes, the
  -- action on all of them sends the edits that the action on every row in turn would leave, and ends
  -- as saving those edits does: with the schedule as the panel has it then and no edit, or, when the
  -- request failed, with those edits.
  pub apply_default_all_in_turn :
      (e : Employee) (es : List Employee) (reload : Option (List ShiftSchedule)) (p : Panel)
      → HasIds (e ∷ es)
      → let turned = rows_in_turn weekday (e ∷ es) (e ∷ es) p in
        (apply_default_all weekday (e ∷ es) true reload p ≡ settled reload turned)
        × (sent_all weekday (e ∷ es) true p ≡ some (entries turned.edits))
  unfolding apply_default_all sent_all
  apply_default_all_in_turn e es reload p ids =
      let same = in_turn weekday (e ∷ es) (e ∷ es) p p.edits (HasIds-found (e ∷ es) ids) in
      (
        ap (λ (z : Panel). settled reload z) (sym same),
        ap (λ (z : Panel). some (entries z.edits)) (sym same),
      )
