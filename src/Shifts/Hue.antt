-- ===== src/Shifts/Hue.antt =====
-- `templateHue` (admin-web/src/pages/app/shifts/SchedulePanel.tsx), on the code units of the id.
use hr_profi_uz.Common.{List, [], ◌∷◌, ℕ, ◌+◌, ◌*◌, ◌%◌, ◌≡◌, ◌<◌, arith}

-- The loop.
unfoldable pub hue_from : ℕ → List ℕ → ℕ
hue_from h [] = h
hue_from h (c ∷ cs) = hue_from ((h * 31 + c) % 360) cs

unfoldable pub template_hue : List ℕ → ℕ
unfolding hue_from
template_hue id = hue_from 0 id

-- The code units as the digits of a number in base 31.
abbrev pub number_from : ℕ → List ℕ → ℕ
number_from h [] = h
number_from h (c ∷ cs) = number_from (h * 31 + c) cs

hue_from_lem : (h : ℕ) (cs : List ℕ) → hue_from (h % 360) cs ≡ number_from h cs % 360
unfolding hue_from
hue_from_lem h [] = omega arith
hue_from_lem h (c ∷ cs) =
    let same : (h % 360 * 31 + c) % 360 ≡ (h * 31 + c) % 360 = omega arith in
    rw same (hue_from_lem (h * 31 + c) cs)

-- The hue is a degree of the circle: it is the number that the code units write in base 31, modulo 360.
template_hue_exact :
    (id : List ℕ) → (template_hue id ≡ number_from 0 id % 360) × (template_hue id < 360)
unfolding template_hue
template_hue_exact id = ground (arith, hue_from_lem 0 id)
