-- ===== src/Attendance/Checks.antt =====
-- The last check-in and check-out of today (admin-web/src/pages/app/employees/LiveEarningsCard.tsx).
use hr_profi_uz.Attendance.Records.{AttendanceRecord, CheckType}
use hr_profi_uz.Attendance.Today.{last_check, latest, latest_of, is_type, later_of}
use hr_profi_uz.Common.{
  List, [], ◌∷◌, Option, none, some, Bool, true, false, ◌≡◌, ◌≤◌, ltb, refl, arith, All, All_mono,
  filter_by, filter_by-All, filter_by-All_test, Bool-cases, inl, inr, ◌⊎◌, subst, if◌then◌else◌,
}

latest_of-All {ℓ} :
    (P : AttendanceRecord → Type ℓ) (a : AttendanceRecord) (rs : List AttendanceRecord)
    → P a
    → All P rs
    → P (latest_of a rs)
latest_of-All P a [] h hs = h
latest_of-All P a (b ∷ rs) h (k, ks) = elim (Bool-cases (ltb b.timestamp a.timestamp)) [
  | inl e ↦ rw e (latest_of-All P a rs h ks)
  | inr e ↦ rw e (latest_of-All P b rs k ks)
]

later_of-upper :
    (a b : AttendanceRecord)
    → (a.timestamp ≤ (later_of a b).timestamp) × (b.timestamp ≤ (later_of a b).timestamp)
later_of-upper a b = ground arith

latest_of-upper :
    (a : AttendanceRecord) (rs : List AttendanceRecord)
    → (a.timestamp ≤ (latest_of a rs).timestamp)
      × All (λ r. r.timestamp ≤ (latest_of a rs).timestamp) rs
latest_of-upper a [] = (omega arith, tt)
latest_of-upper a (b ∷ rs) =
    let best = later_of a b in
    let rest = latest_of-upper best rs in
    let both = later_of-upper a b in
    (omega (arith, rest.0, both.0), (omega (arith, rest.0, both.1), rest.1))

filtered_or :
    (P : AttendanceRecord → Type 0) (f : AttendanceRecord → Bool) (rs : List AttendanceRecord)
    → All P (filter_by f rs)
    → All (λ r. (f r ≡ false) ⊎ P r) rs
filtered_or P f [] h = tt
filtered_or P f (r ∷ rs) h = elim (Bool-cases (f r)) [
  | inl e ↦
      let both = subst (λ z. All P (if z then r ∷ filter_by f rs else filter_by f rs)) e h in
      (inr both.0, filtered_or P f rs both.1)
  | inr e ↦
      let later = subst (λ z. All P (if z then r ∷ filter_by f rs else filter_by f rs)) e h in
      (inl e, filtered_or P f rs later)
]

-- The record is one of the list.
abbrev pub IsAmong : AttendanceRecord → List AttendanceRecord → Type 0
IsAmong r [] = ⊥
IsAmong r (x ∷ xs) = (x ≡ r) ⊎ IsAmong r xs

All-IsAmong : (rs : List AttendanceRecord) → All (λ r. IsAmong r rs) rs
All-IsAmong [] = tt
All-IsAmong (r ∷ rs) = (
  inl refl,
  All_mono (λ x. IsAmong x rs) (λ x. IsAmong x (r ∷ rs)) rs (λ x h. inr h) (All-IsAmong rs),
)

-- The latest of the records of the type, if there is any.
abbrev pub IsLatest : CheckType → List AttendanceRecord → Option AttendanceRecord → Type 0
IsLatest type records none = All (λ r. is_type r.check_type type ≡ false) records
IsLatest type records (some last) =
    (is_type last.check_type type ≡ true)
    × IsAmong last records
    × All (λ r. (is_type r.check_type type ≡ false) ⊎ (r.timestamp ≤ last.timestamp)) records

module _ (type : CheckType) (records : List AttendanceRecord) where
  abbrev of_type : AttendanceRecord → Bool
  of_type r = is_type r.check_type type

  latest-IsLatest :
      (kept : List AttendanceRecord)
      → All (λ r. of_type r ≡ true) kept
      → All (λ r. IsAmong r records) kept
      → ((P : AttendanceRecord → Type 0)
          → All P kept
          → All (λ r. (of_type r ≡ false) ⊎ P r) records)
      → IsLatest type records (latest kept)
  latest-IsLatest [] typed among spread =
      All_mono (λ r. (of_type r ≡ false) ⊎ ⊥) (λ r. of_type r ≡ false) records
        (λ r h. elim h [ inl e ↦ e | inr e ↦ absurd e ]) (spread (λ r. ⊥) tt)
  latest-IsLatest (k ∷ ks) (t, ts) (b, bs) spread = (
    latest_of-All (λ r. of_type r ≡ true) k ks t ts,
    latest_of-All (λ r. IsAmong r records) k ks b bs,
    spread (λ r. r.timestamp ≤ (latest_of k ks).timestamp) (latest_of-upper k ks),
  )

-- The last check of a type is one of the records of that type, rejected ones included, and no record of the
-- type is later; without a record of the type there is none.
last_check-IsLatest :
    (type : CheckType) (records : List AttendanceRecord)
    → IsLatest type records (last_check type records)
unfolding last_check
last_check-IsLatest type records =
    latest-IsLatest type records (filter_by (of_type type records) records)
      (filter_by-All_test (λ r. of_type type records r ≡ true) (of_type type records) records
        (λ r h. h))
      (filter_by-All (λ r. IsAmong r records) (of_type type records) records (All-IsAmong records))
      (λ P h. filtered_or P (of_type type records) records h)
