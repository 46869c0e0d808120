-- ===== src/Kpi/Picking.antt =====
-- The choice of those who get an indicator (admin-web/src/pages/app/kpi/BulkAssignTab.tsx).
use hr_profi_uz.Common.{
  List, String, ◌∷◌, ◌≡◌, All, Bool, false, true, [], ◌++◌, filter_by, ◌===◌, Bool-cases, arith,
  eq_iff, inl, refl, inr, filter_by-All, not,
}
use hr_profi_uz.Kpi.Bulk.{Tab, Mode, set_mode, toggle_pick}
use hr_profi_uz.Departments.Picker.{member}

abbrev IsDistinct : List String → Type 0
IsDistinct [] = Unit
IsDistinct (x ∷ xs) = (member x xs ≡ false) × IsDistinct xs

-- The buttons of the tab: the three of the scope, and one for every option that the scope shows.
pub data Step : Type 0 where
  choose : Mode → Step
  pick : String → Step

abbrev pub step : Step → Tab → Tab
step (choose mode) s = set_mode mode s
step (pick id) s = toggle_pick id s

member-filter_by :
    (x : String) (f : String → Bool) (xs : List String)
    → member x xs ≡ false
    → member x (filter_by f xs) ≡ false
unfolding member
member-filter_by x f [] h = refl
member-filter_by x f (y ∷ ys) h = elim (Bool-cases (f y)) [
  | inl e ↦ rw e (ground (arith, h, member-filter_by x f ys))
  | inr e ↦ rw e (ground (arith, h, member-filter_by x f ys))
]

filter_by-IsDistinct :
    (f : String → Bool) (xs : List String) → IsDistinct xs → IsDistinct (filter_by f xs)
filter_by-IsDistinct f [] h = tt
filter_by-IsDistinct f (x ∷ xs) (h, hs) = elim (Bool-cases (f x)) [
  | inl e ↦ rw e (member-filter_by x f xs h, filter_by-IsDistinct f xs hs)
  | inr e ↦ rw e (filter_by-IsDistinct f xs hs)
]

member-append :
    (x y : String) (xs : List String)
    → member x xs ≡ false
    → (y === x) ≡ false
    → member x (xs ++ y ∷ []) ≡ false
unfolding member
member-append x y [] h e = rw e refl
member-append x y (z ∷ zs) h e = ground (arith, h, e, member-append x y zs)

append-IsDistinct :
    (xs : List String) (y : String)
    → member y xs ≡ false
    → IsDistinct xs
    → IsDistinct (xs ++ y ∷ [])
unfolding member
append-IsDistinct [] y h hs = (refl, tt)
append-IsDistinct (x ∷ xs) y h (k, ks) = (
  member-append x y xs k (ground (arith, h, eq_iff x y, eq_iff y x)),
  append-IsDistinct xs y (ground (arith, h)) ks,
)

append-All :
    (P : String → Type 0) (xs : List String) (y : String) → All P xs → P y → All P (xs ++ y ∷ [])
append-All P [] y h p = (p, tt)
append-All P (x ∷ xs) y (h, hs) p = (h, append-All P xs y hs p)

module _ (options : Mode → List String) where
  -- The picked ids are options of the scope, each picked once.
  abbrev pub IsValid : Tab → Type 0
  IsValid s = All (λ id. member id (options s.mode) ≡ true) s.picked × IsDistinct s.picked

  -- What the buttons lead to.
  pub data Reach (s : Tab) : Tab → Type 0 where
    start : Reach s s
    chosen : (t : Tab) (mode : Mode) → Reach s t → Reach s (step (choose mode) t)
    picked_one :
        (t : Tab) (id : String)
        → member id (options t.mode) ≡ true
        → Reach s t
        → Reach s (step (pick id) t)

  toggle_pick-IsValid :
      (id : String) (s : Tab)
      → member id (options s.mode) ≡ true
      → IsValid s
      → IsValid (toggle_pick id s)
  unfolding toggle_pick
  toggle_pick-IsValid id s h (hs, ds) = elim (Bool-cases (member id s.picked)) [
    | inl e ↦ rw e (
      filter_by-All (λ x. member x (options s.mode) ≡ true) (λ x. not (x === id)) s.picked hs,
      filter_by-IsDistinct (λ x. not (x === id)) s.picked ds,
    )
    | inr e ↦ rw e (
      append-All (λ x. member x (options s.mode) ≡ true) s.picked id hs h,
      append-IsDistinct s.picked id e ds,
    )
  ]

  -- From a tab where nothing is picked, the buttons of the scopes and of the options that the chosen
  -- scope shows lead to tabs only where the picked ids are options of the chosen scope, each picked
  -- once, also after the scope was changed.
  pub picks_stay_options : (s t : Tab) → s.picked ≡ [] → Reach s t → IsValid t
  unfolding set_mode
  picks_stay_options s _ h start = rw h (tt, tt)
  picks_stay_options s _ h (chosen t mode r) = (tt, tt)
  picks_stay_options s _ h (picked_one t id m r) =
      toggle_pick-IsValid id t m (picks_stay_options s t h r)
