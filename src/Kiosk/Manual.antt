-- ===== src/Kiosk/Manual.antt =====
-- The manual flow (kiosk-web/src/pages/MainPage.tsx): the list that `ManualSheet` shows, and the
-- direction of a confirmation. The text functions of the platform (`trim` and `toLowerCase`,
-- `includes`, `localeCompare`) are parameters.
use mathlib.Core.List.{Perm}
use hr_profi_uz.Kiosk.Loop.{first_post}
use hr_profi_uz.Kiosk.Types.{Employee}
use hr_profi_uz.Kiosk.Screen.{Screen, scan_in, path_of, dir_in, dir_out}
use hr_profi_uz.Common.{
  String, Bool, ◌≡◌, Option, List, some, true, ◌∷◌, false, [], All, none, ◌⊎◌, arith, Bool-cases,
  inl, inr, if◌then◌else◌, is_blank, filter_by, ◌||◌,
}
use hr_profi_uz.Kiosk.Machine.{step, confirm, scan_timeout}
use mathlib.Core.List.Perm

module _ (normal lower : String → String) (includes : String → String → Bool) where
  -- `(e.employee_code ?? "")`
  abbrev or_empty : Option String → String
  or_empty none = ""
  or_empty (some s) = s

  -- `filtered`; `normal` is `trim` followed by `toLowerCase`.
  unfoldable pub filtered : String → List Employee → List Employee
  filtered text items =
      let q = normal text in
      if is_blank q
      then items
      else filter_by
          (λ e. includes (lower e.full_name) q || includes (lower (or_empty e.employee_code)) q)
          items

-- The comparator of `sorted`, as the test that `a` may stand before `b`.
module _ (name_le : String → String → Bool) where
  unfoldable pub stands_before : Employee → Employee → Bool
  stands_before a b =
      if a.is_currently_in
      then (if b.is_currently_in then name_le a.full_name b.full_name else true)
      else (if b.is_currently_in then false else name_le a.full_name b.full_name)

  -- `Array.prototype.sort` is stable: an employee goes in front of the first that it may precede.
  unfoldable pub place : Employee → List Employee → List Employee
  place e [] = e ∷ []
  place e (x ∷ xs) = let rest = place e xs in if stands_before e x then e ∷ x ∷ xs else x ∷ rest

  unfoldable pub sorted : List Employee → List Employee
  unfolding place
  sorted [] = []
  sorted (e ∷ es) = place e (sorted es)

  -- On duty before off duty, and by name among those of one kind.
  abbrev pub Precedes : Employee → Employee → Type 0
  Precedes a b =
      ((a.is_currently_in ≡ true) × (b.is_currently_in ≡ false))
      ⊎ ((a.is_currently_in ≡ b.is_currently_in) × (name_le a.full_name b.full_name ≡ true))

  abbrev pub IsSorted : List Employee → Type 0
  IsSorted [] = Unit
  IsSorted (e ∷ es) = All (Precedes e) es × IsSorted es

  place-perm : (e : Employee) (xs : List Employee) → Perm (place e xs) (e ∷ xs)
  unfolding place
  place-perm e [] = Perm.refl _
  place-perm e (x ∷ xs) = elim (Bool-cases (stands_before e x)) [
    | inl before ↦ rw before (Perm.refl _)
    | inr after ↦ rw after (Perm.trans (Perm.cons x (place-perm e xs)) (Perm.swap e x xs))
  ]

  sorted-perm : (xs : List Employee) → Perm (sorted xs) xs
  unfolding sorted
  sorted-perm [] = Perm.refl _
  sorted-perm (e ∷ xs) = Perm.trans (place-perm e (sorted xs)) (Perm.cons e (sorted-perm xs))

  module _ (trans : (a b c : String) → name_le a b ≡ true → name_le b c ≡ true → name_le a c ≡ true)
      (total : (a b : String) → name_le a b ≡ false → name_le b a ≡ true) where
    Precedes-trans : (a b c : Employee) → Precedes a b → Precedes b c → Precedes a c
    Precedes-trans a b c h k = ground (arith, trans a.full_name b.full_name c.full_name)

    Precedes-place :
        (a e : Employee) (xs : List Employee)
        → Precedes a e
        → All (Precedes a) xs
        → All (Precedes a) (place e xs)
    unfolding place
    Precedes-place a e [] h hs = (h, tt)
    Precedes-place a e (x ∷ xs) h (k, ks) = elim (Bool-cases (stands_before e x)) [
      | inl before ↦ rw before (h, (k, ks))
      | inr after ↦ rw after (k, Precedes-place a e xs h ks)
    ]

    All-trans :
        (a b : Employee) (xs : List Employee)
        → Precedes a b
        → All (Precedes b) xs
        → All (Precedes a) xs
    All-trans a b [] h hs = tt
    All-trans a b (x ∷ xs) h (k, ks) = (Precedes-trans a b x h k, All-trans a b xs h ks)

    before-Precedes : (a b : Employee) → stands_before a b ≡ true → Precedes a b
    unfolding stands_before
    before-Precedes a b h = ground arith

    after-Precedes : (a b : Employee) → stands_before a b ≡ false → Precedes b a
    unfolding stands_before
    after-Precedes a b h = ground (arith, total a.full_name b.full_name)

    place-IsSorted : (e : Employee) (xs : List Employee) → IsSorted xs → IsSorted (place e xs)
    unfolding place
    place-IsSorted e [] h = (tt, tt)
    place-IsSorted e (x ∷ xs) (k, ks) = elim (Bool-cases (stands_before e x)) [
      | inl before ↦
          let p = before-Precedes e x before in rw before ((p, All-trans e x xs p k), (k, ks))
      | inr after ↦
          rw after (Precedes-place x e xs (after-Precedes e x after) k, place-IsSorted e xs ks)
    ]

    sorted-IsSorted : (xs : List Employee) → IsSorted (sorted xs)
    unfolding sorted
    sorted-IsSorted [] = tt
    sorted-IsSorted (e ∷ xs) = place-IsSorted e (sorted xs) (sorted-IsSorted xs)

    -- With a total and transitive order of names, the manual sheet lists exactly the given employees,
    -- those on duty before the others, and each of the two groups by name.
    pub manual_sheet_order : (xs : List Employee) → Perm (sorted xs) xs × IsSorted (sorted xs)
    manual_sheet_order xs = (sorted-perm xs, sorted-IsSorted xs)

-- An employee on duty is picked in the manual sheet after the operator chose check-in. Confirmed at
-- once the check goes to the check-in path; if the scan timer fires before the confirmation, the same
-- confirmation goes to the check-out path.
pub timeout_flips_manual_direction :
    (s : Screen) (emp : Employee) (frame : Option String)
    → s.mode ≡ scan_in
    → s.confirm_emp ≡ some emp
    → s.is_pending ≡ false
    → emp.is_currently_in ≡ true
    → (first_post (step (confirm frame) s).1 ≡ some (path_of dir_in, emp.id))
      × (first_post (step (confirm frame) (step scan_timeout s).0).1
          ≡ some (path_of dir_out, emp.id))
unfolding step
timeout_flips_manual_direction s emp frame m c p e = ground arith
