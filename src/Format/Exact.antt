-- ===== src/Format/Exact.antt =====
-- What a formatted number says (admin-web/src/pages/app/attendance/utils.ts,
-- admin-web/src/pages/app/devices/utils.ts).
use hr_profi_uz.Common.{
  ℕ, String, ◌*◌, ◌≤◌, ◌-◌, ◌+◌, ◌/◌, ◌≡◌, ◌<◌, some, ◌⊎◌, ◌%◌, arith, ltb, Bool-cases, false, inl,
  inr, refl,
}
use hr_profi_uz.Format.Durations.{fmt_duration_short, fmt_hm, pad_2, time_ago, ◌+++◌, age}

module _ (show : ℕ → String) where
  -- A duration is shown as hours and minutes that make it up, with less than 60 minutes beside the
  -- hours: the short form leaves out a part that is 0, unless all is 0, and the long form writes two digits.
  durations_are_exact :
      (hour minute : String) (total : ℕ)
      → (h : ℕ) × (m : ℕ) × (h * 60 + m ≡ total)
        × (m < 60)
        × ((fmt_hm show total ≡ show h +++ (":" +++ pad_2 show m))
            ⊎ ((total ≡ 0) × (fmt_hm show total ≡ "0:00")))
        × (((h ≡ 0) × (fmt_duration_short show hour minute total ≡ show m +++ minute))
            ⊎ (((m ≡ 0) × (fmt_duration_short show hour minute total ≡ show h +++ hour))
                ⊎ (fmt_duration_short show hour minute total
                    ≡ show h +++ (hour +++ (" " +++ (show m +++ minute))))))
  unfolding fmt_duration_short fmt_hm
  durations_are_exact hour minute total =
      (total / 60, total % 60, omega arith, omega arith, ground arith, ground arith)

  -- The seconds of a unit.
  abbrev pub IsUnit : String → ℕ → Type 0
  IsUnit unit size =
      ((unit ≡ "s") × (size ≡ 1))
      ⊎ (((unit ≡ "m") × (size ≡ 60))
          ⊎ (((unit ≡ "h") × (size ≡ 3600)) ⊎ ((unit ≡ "d") × (size ≡ 86400))))

  -- A text shows `sec` seconds as a number of whole units.
  abbrev pub Shows : String → ℕ → Type 0
  Shows text sec =
      (k : ℕ) × (size : ℕ) × (unit : String) × (text ≡ show k +++ unit)
      × (k * size ≤ sec)
      × (sec < (k + 1) * size)
      × IsUnit unit size
      × ((size ≡ 1) ⊎ (1 ≤ k))

  age_lem : (sec : ℕ) → Shows (age show sec) sec
  age_lem sec = elim (Bool-cases (ltb sec 60)) [
    | inl s ↦ (sec, 1, "s", rw s refl, omega arith, omega arith, inl (refl, refl), inl refl)
    | inr m ↦ elim (Bool-cases (ltb sec 3600)) [
      | inl t ↦ (
        sec / 60,
        60,
        "m",
        rw m (rw t refl),
        omega arith,
        omega arith,
        inr (inl (refl, refl)),
        inr (ground arith),
      )
      | inr t ↦ elim (Bool-cases (ltb sec 86400)) [
        | inl u ↦ (
          sec / 3600,
          3600,
          "h",
          rw m (rw t (rw u refl)),
          omega arith,
          omega arith,
          inr (inr (inl (refl, refl))),
          inr (ground arith),
        )
        | inr u ↦ (
          sec / 86400,
          86400,
          "d",
          rw m (rw t (rw u refl)),
          omega arith,
          omega arith,
          inr (inr (inr (refl, refl))),
          inr (ground arith),
        )
      ]
    ]
  ]

  not_before : (now past : ℕ) → past ≤ now → ltb now past ≡ false
  not_before now past h = ground arith

  -- The age of a time that is not after now is shown in a unit of 1, 60, 3600 or 86400 seconds, as the
  -- number of whole units in the whole seconds since then, which is 0 for no unit above the second.
  time_ago_is_exact :
      (now past : ℕ) → past ≤ now → Shows (time_ago show now (some past)) ((now - past) / 1000)
  unfolding time_ago
  time_ago_is_exact now past h = rw (not_before now past h) (age_lem ((now - past) / 1000))
