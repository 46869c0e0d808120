-- ===== src/Attendance/Worked.antt =====
-- The time that an employee worked today (admin-web/src/pages/app/employees/LiveEarningsCard.tsx).
use hr_profi_uz.Attendance.Records.{AttendanceRecord, CheckType, check_in, check_out}
use hr_profi_uz.Attendance.Today.{
  sum_pairs, pair, ascending, summarise_today, breakdown, earlier, is_kept,
}
use hr_profi_uz.Common.{
  List, [], ◌∷◌, Option, none, some, true, ℕ, ◌+◌, ◌-◌, ◌≡◌, ◌≤◌, refl, arith, All, IsSortedBy,
  sort_by-IsSortedBy, sort_by-All, ◌⊎◌, inl, inr, filter_by, is_some, ◌∙◌, ap, sym, All_mono,
  Bool-cases, filter_by-All,
}

-- The time between each check-in and a check-out that follows it at once.
abbrev gap_from : CheckType → ℕ → ℕ → ℕ
gap_from check_in start t = 0
gap_from check_out start t = t - start

abbrev gap : CheckType → ℕ → List AttendanceRecord → ℕ
gap check_out start rs = 0
gap check_in start [] = 0
gap check_in start (r ∷ rs) = gap_from r.check_type start r.timestamp

abbrev pub paired : List AttendanceRecord → ℕ
paired [] = 0
paired (r ∷ rs) = gap r.check_type r.timestamp rs + paired rs

CheckType-cases : (t : CheckType) → (t ≡ check_in) ⊎ (t ≡ check_out)
CheckType-cases check_in = inl refl
CheckType-cases check_out = inr refl

-- The pair that an open segment makes with the first of the records.
abbrev head_gap : Option ℕ → List AttendanceRecord → ℕ
head_gap none rs = 0
head_gap (some start) rs = gap check_in start rs

sum_pairs-paired :
    (rs : List AttendanceRecord) (closed : ℕ) (since : Option ℕ)
    → (sum_pairs rs closed since).0 ≡ closed + head_gap since rs + paired rs
unfolding sum_pairs
sum_pairs-paired [] closed none = omega arith
sum_pairs-paired [] closed (some start) = omega arith
sum_pairs-paired (r ∷ rs) closed none = elim (CheckType-cases r.check_type) [
  | inl e ↦ ground (arith, e, sum_pairs-paired rs closed (some r.timestamp))
  | inr e ↦ ground (arith, e, sum_pairs-paired rs closed none)
]
sum_pairs-paired (r ∷ rs) closed (some start) = elim (CheckType-cases r.check_type) [
  | inl e ↦ ground (arith, e, sum_pairs-paired rs closed (some r.timestamp))
  | inr e ↦ ground (arith, e, sum_pairs-paired rs (closed + (r.timestamp - start)) none)
]

abbrev since_of : CheckType → ℕ → Option ℕ
since_of check_in t = some t
since_of check_out t = none

-- The time of the last record, if that is a check-in.
abbrev pub running : Option ℕ → List AttendanceRecord → Option ℕ
running before [] = before
running before (r ∷ rs) = running (since_of r.check_type r.timestamp) rs

pair-since :
    (type : CheckType) (t closed : ℕ) (since : Option ℕ)
    → (pair type t closed since).1 ≡ since_of type t
pair-since check_in t closed since = refl
pair-since check_out t closed none = refl
pair-since check_out t closed (some start) = refl

sum_pairs-running :
    (rs : List AttendanceRecord) (closed : ℕ) (since : Option ℕ)
    → (sum_pairs rs closed since).1 ≡ running since rs
unfolding sum_pairs
sum_pairs-running [] closed since = refl
sum_pairs-running (r ∷ rs) closed since =
    let next = pair r.check_type r.timestamp closed since in
    sum_pairs-running rs next.0 next.1
    ∙ ap (λ (z : Option ℕ). running z rs) (pair-since r.check_type r.timestamp closed since)

breakdown_parts :
    (now closed : ℕ) (since : Option ℕ)
    → let b = breakdown now closed since in
      (b.closed ≡ closed) × (b.in_progress_since ≡ since) × (b.in_progress ≡ is_some since)
breakdown_parts now closed none = (refl, refl, refl)
breakdown_parts now closed (some start) = (refl, refl, refl)

-- Of the records that are not rejected, ordered by time, the closed time is the sum of the gaps
-- between a check-in and a check-out right after it, and work is in progress exactly since the last
-- record when that is a check-in.
pub summarise_today_exact :
    (now : ℕ) (records : List AttendanceRecord)
    → let b = summarise_today now records in
      (b.closed ≡ paired (ascending records))
      × (b.in_progress_since ≡ running none (ascending records))
      × (b.in_progress ≡ is_some b.in_progress_since)
unfolding summarise_today
summarise_today_exact now records =
    let rs = ascending records in
    let sums = sum_pairs rs 0 none in
    let parts = breakdown_parts now sums.0 sums.1 in
    (
      omega (arith, parts.0, sum_pairs-paired rs 0 none),
      parts.1 ∙ sum_pairs-running rs 0 none,
      parts.2 ∙ ap (λ (z : Option ℕ). is_some z) (sym parts.1),
    )

earlier_total : (a b : AttendanceRecord) → (earlier a b ≡ true) ⊎ (earlier b a ≡ true)
earlier_total a b = elim (Bool-cases (earlier a b)) [
  | inl e ↦ inl e
  | inr e ↦ inr (ground (arith, e))
]

earlier_trans :
    (a b c : AttendanceRecord) → earlier a b ≡ true → earlier b c ≡ true → earlier a c ≡ true
earlier_trans a b c h k = ground arith

ascending-IsSortedBy : (records : List AttendanceRecord) → IsSortedBy earlier (ascending records)
unfolding ascending
ascending-IsSortedBy records =
    sort_by-IsSortedBy earlier earlier_total earlier_trans
      (filter_by (λ r. is_kept r.status) records)

All_later :
    (r : AttendanceRecord) (rs : List AttendanceRecord)
    → All (λ y. earlier r y ≡ true) rs
    → All (λ y. r.timestamp ≤ y.timestamp) rs
All_later r [] hs = tt
All_later r (x ∷ xs) (h, hs) = (ground (arith, h), All_later r xs hs)

module _ (start : ℕ) where
  -- `closed` and the open segment fit between `start` and the time `last` of the last record.
  abbrev Fits : ℕ → Option ℕ → ℕ → Type 0
  Fits closed none last = closed + start ≤ last
  Fits closed (some since) last = (closed + start ≤ since) × (since ≤ last)

  pair-Fits :
      (type : CheckType) (t closed : ℕ) (since : Option ℕ) (last : ℕ)
      → Fits closed since last
      → last ≤ t
      → let next = pair type t closed since in Fits next.0 next.1 t
  pair-Fits check_in t closed none last h k = omega arith
  pair-Fits check_in t closed (some s) last h k = omega arith
  pair-Fits check_out t closed none last h k = omega arith
  pair-Fits check_out t closed (some s) last h k = omega arith

  Fits-later :
      (closed : ℕ) (since : Option ℕ) (last now : ℕ)
      → Fits closed since last
      → last ≤ now
      → Fits closed since now
  Fits-later closed none last now h k = omega arith
  Fits-later closed (some s) last now h k = omega arith

  sum_pairs-Fits :
      (rs : List AttendanceRecord) (closed : ℕ) (since : Option ℕ) (last now : ℕ)
      → Fits closed since last
      → All (λ r. last ≤ r.timestamp) rs
      → All (λ r. r.timestamp ≤ now) rs
      → last ≤ now
      → IsSortedBy earlier rs
      → let sums = sum_pairs rs closed since in Fits sums.0 sums.1 now
  unfolding sum_pairs
  sum_pairs-Fits [] closed since last now h ks ls m sorted = Fits-later closed since last now h m
  sum_pairs-Fits (r ∷ rs) closed since last now h (k, ks) (l, ls) m (first, sorted) =
      let next = pair r.check_type r.timestamp closed since in
      sum_pairs-Fits rs next.0 next.1 r.timestamp now
        (pair-Fits r.check_type r.timestamp closed since last h k) (All_later r rs first) ls l
        sorted

  breakdown-Fits :
      (now closed : ℕ) (since : Option ℕ)
      → Fits closed since now
      → (breakdown now closed since).worked + start ≤ now
  breakdown-Fits now closed none h = omega arith
  breakdown-Fits now closed (some s) h = omega arith

  abbrev pub IsWithin : ℕ → AttendanceRecord → Type 0
  IsWithin now r = (start ≤ r.timestamp) × (r.timestamp ≤ now)

  ascending-IsWithin :
      (now : ℕ) (records : List AttendanceRecord)
      → All (IsWithin now) records
      → All (IsWithin now) (ascending records)
  unfolding ascending
  ascending-IsWithin now records within =
      sort_by-All earlier (IsWithin now) _
        (filter_by-All (IsWithin now) (λ r. is_kept r.status) records within)

  -- When `start` is not after now and every record lies between them, the time worked, the segment in
  -- progress included, is at most the time since `start`.
  pub summarise_today_bounds :
      (now : ℕ) (records : List AttendanceRecord)
      → start ≤ now
      → All (IsWithin now) records
      → (summarise_today now records).worked + start ≤ now
  unfolding summarise_today
  summarise_today_bounds now records h within =
      let rs = ascending records in
      let kept = ascending-IsWithin now records within in
      let sums = sum_pairs rs 0 none in
      breakdown-Fits now sums.0 sums.1 (
        sum_pairs-Fits rs 0 none start now (omega arith)
          (All_mono (IsWithin now) (λ r. start ≤ r.timestamp) rs (λ r k. k.0) kept)
          (All_mono (IsWithin now) (λ r. r.timestamp ≤ now) rs (λ r k. k.1) kept) h
          (ascending-IsSortedBy records))
