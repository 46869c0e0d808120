-- ===== src/Settings/Toggling.antt =====
-- The buttons of the weekdays (admin-web/src/pages/app/settings/WorkScheduleTab.tsx).
use hr_profi_uz.Common.{
  List, ℕ, insert_by, sort_by, leb, All, ◌∷◌, ◌≡◌, true, false, ◌<◌, ◌++◌, arith, filter_by, [],
  not, refl, ◌==◌, ◌≤◌, ap, inl, ◌⊎◌, inr, ◌∙◌, All_mono, insert_by-All, Bool-cases, subst, sym,
  Bool, filter_by-All,
}
use hr_profi_uz.Settings.Days.{toggle_day, includes}

-- Every day is below those that follow it.
abbrev pub IsAscending : List ℕ → Type 0
IsAscending [] = Unit
IsAscending (x ∷ xs) = All (λ y. x < y) xs × IsAscending xs

excludes_below : (d : ℕ) (xs : List ℕ) → All (λ y. d < y) xs → includes d xs ≡ false
excludes_below d [] h = refl
excludes_below d (x ∷ xs) (h, hs) = ground (arith, h, excludes_below d xs hs)

-- Dropping a day that is not there drops nothing.
drop_absent : (d : ℕ) (xs : List ℕ) → includes d xs ≡ false → filter_by (λ y. not (y == d)) xs ≡ xs
drop_absent d [] h = refl
drop_absent d (x ∷ xs) h = ground (arith, h, drop_absent d xs)

leb-cases : (a b : ℕ) → ((leb a b ≡ true) × (a ≤ b)) ⊎ ((leb a b ≡ false) × (b < a))
leb-cases a b = elim (Bool-cases (leb a b)) [
  | inl e ↦ inl (e, ground (arith, e))
  | inr e ↦ inr (e, ground (arith, e))
]

insert_by-first : (d : ℕ) (xs : List ℕ) → All (λ y. d < y) xs → insert_by leb d xs ≡ d ∷ xs
unfolding insert_by
insert_by-first d [] h = refl
insert_by-first d (x ∷ xs) (h, hs) = ground (arith, h)

-- Two days are put at their places in either order.
insert_by-swap :
    (x d : ℕ) (xs : List ℕ)
    → All (λ y. x < y) xs
    → (x == d) ≡ false
    → insert_by leb x (insert_by leb d xs) ≡ insert_by leb d (x ∷ xs)
unfolding insert_by
insert_by-swap x d xs h ne = elim (leb-cases d x) [
  | inl (e, le) ↦
      rw
        (
          e,
          insert_by-first d xs (All_mono (λ y. x < y) (λ y. d < y) xs (λ y k. omega arith) h),
          insert_by-first x xs h,
        )
        (ground (arith, le, ne))
  | inr (e, lt) ↦
      rw e (insert_by-first x (insert_by leb d xs) (insert_by-All leb (λ y. x < y) d xs lt h))
]

-- Appending and sorting puts the day at its place.
sort_by-append :
    (d : ℕ) (xs : List ℕ)
    → IsAscending xs
    → includes d xs ≡ false
    → sort_by leb (xs ++ d ∷ []) ≡ insert_by leb d xs
unfolding sort_by insert_by
sort_by-append d [] hs e = refl
sort_by-append d (x ∷ xs) (h, hs) e =
    ap (insert_by leb x) (sort_by-append d xs hs (ground (arith, e)))
    ∙ insert_by-swap x d xs h (ground (arith, e))

drop-insert :
    (d : ℕ) (xs : List ℕ)
    → includes d xs ≡ false
    → filter_by (λ y. not (y == d)) (insert_by leb d xs) ≡ xs
unfolding insert_by
drop-insert d [] h = ground arith
drop-insert d (x ∷ xs) h =
    let rest = drop-insert d xs (ground (arith, h)) in
    let absent = drop_absent d xs (ground (arith, h)) in
    elim (leb-cases d x) [
      | inl (e, le) ↦ rw (e, absent) (ground (arith, h))
      | inr (e, lt) ↦ rw (e, rest) (ground (arith, h))
    ]

below_included : (x d : ℕ) (xs : List ℕ) → All (λ y. x < y) xs → includes d xs ≡ true → x < d
below_included x d [] h e = ground (arith, e)
below_included x d (y ∷ ys) (h, hs) e = ground (arith, h, e, below_included x d ys hs)

same_day : (x d : ℕ) → (x == d) ≡ true → x ≡ d
same_day x d h = ground (arith, h)

insert-drop :
    (d : ℕ) (xs : List ℕ)
    → IsAscending xs
    → includes d xs ≡ true
    → insert_by leb d (filter_by (λ y. not (y == d)) xs) ≡ xs
unfolding insert_by
insert-drop d [] hs h = ground (arith, h)
insert-drop d (x ∷ xs) (p, ps) h = elim (Bool-cases (x == d)) [
  | inl e ↦
      let below : All (λ y. d < y) xs = subst (λ z. All (λ y. z < y) xs) (same_day x d e) p in
      rw (e, drop_absent d xs (excludes_below d xs below), insert_by-first d xs below)
        (ap (λ z. z ∷ xs) (sym (same_day x d e)))
  | inr e ↦
      let there : includes d xs ≡ true = ground (arith, e, h) in
      let above : leb d x ≡ false = ground (arith, below_included x d xs p there) in
      rw (e, above, insert-drop d xs ps there) refl
]

includes-insert_by : (d : ℕ) (xs : List ℕ) → includes d (insert_by leb d xs) ≡ true
unfolding insert_by
includes-insert_by d [] = ground arith
includes-insert_by d (x ∷ xs) = elim (Bool-cases (leb d x)) [
  | inl e ↦ rw e (ground arith)
  | inr e ↦ rw (e, includes-insert_by d xs) (ground arith)
]

includes-dropped : (d : ℕ) (xs : List ℕ) → includes d (filter_by (λ y. not (y == d)) xs) ≡ false
includes-dropped d [] = refl
includes-dropped d (x ∷ xs) = elim (Bool-cases (x == d)) [
  | inl e ↦ rw e (includes-dropped d xs)
  | inr e ↦ rw e (rw (e, includes-dropped d xs) refl)
]

insert_by-IsAscending :
    (d : ℕ) (xs : List ℕ)
    → includes d xs ≡ false
    → IsAscending xs
    → IsAscending (insert_by leb d xs)
unfolding insert_by
insert_by-IsAscending d [] e hs = (tt, tt)
insert_by-IsAscending d (x ∷ xs) e (h, hs) = elim (leb-cases d x) [
  | inl (l, le) ↦
      let lt : d < x = ground (arith, e, le) in
      rw l ((lt, All_mono (λ y. x < y) (λ y. d < y) xs (λ y k. omega arith) h), (h, hs))
  | inr (l, lt) ↦
      rw l (
        insert_by-All leb (λ y. x < y) d xs lt h,
        insert_by-IsAscending d xs (ground (arith, e)) hs,
      )
]

filter_by-IsAscending : (f : ℕ → Bool) (xs : List ℕ) → IsAscending xs → IsAscending (filter_by f xs)
filter_by-IsAscending f [] hs = tt
filter_by-IsAscending f (x ∷ xs) (h, hs) = elim (Bool-cases (f x)) [
  | inl e ↦ rw e (filter_by-All (λ y. x < y) f xs h, filter_by-IsAscending f xs hs)
  | inr e ↦ rw e (filter_by-IsAscending f xs hs)
]

toggle_day-absent :
    (iso : ℕ) (days : List ℕ)
    → IsAscending days
    → includes iso days ≡ false
    → toggle_day iso days ≡ insert_by leb iso days
unfolding toggle_day
toggle_day-absent iso days hs h = rw h (sort_by-append iso days hs h)

toggle_day-present :
    (iso : ℕ) (days : List ℕ)
    → includes iso days ≡ true
    → toggle_day iso days ≡ filter_by (λ d. not (d == iso)) days
unfolding toggle_day
toggle_day-present iso days h = rw h refl

-- Toggling a day twice gives the days back, when they are in ascending order without repetition, and
-- the days stay in such an order.
pub toggle_day_twice :
    (iso : ℕ) (days : List ℕ)
    → IsAscending days
    → (toggle_day iso (toggle_day iso days) ≡ days) × IsAscending (toggle_day iso days)
toggle_day_twice iso days hs = elim (Bool-cases (includes iso days)) [
  | inl h ↦
      let kept = filter_by-IsAscending (λ d. not (d == iso)) days hs in
      rw (toggle_day-present iso days h)
        (toggle_day-absent iso _ kept (includes-dropped iso days) ∙ insert-drop iso days hs h, kept)
  | inr h ↦ rw (toggle_day-absent iso days hs h) (
    toggle_day-present iso _ (includes-insert_by iso days) ∙ drop-insert iso days h,
    insert_by-IsAscending iso days h hs,
  )
]
