-- ===== src/Format/Tones.antt =====
-- The colours of a score (admin-web/src/pages/app/kpi/utils.ts).
use hr_profi_uz.Common.{ℕ, String, Option, if◌then◌else◌, leb, some, none}

record Ring : Type 0 where
  bg : String
  text : String
  ring : String

abbrev ring_emerald : Ring
ring_emerald = record { bg = "bg-emerald-50"; text = "text-emerald-700"; ring = "ring-emerald-200" }

abbrev ring_brand : Ring
ring_brand = record { bg = "bg-brand-50"; text = "text-brand-700"; ring = "ring-brand-200" }

abbrev ring_amber : Ring
ring_amber = record { bg = "bg-amber-50"; text = "text-amber-700"; ring = "ring-amber-200" }

abbrev ring_rose : Ring
ring_rose = record { bg = "bg-rose-50"; text = "text-rose-700"; ring = "ring-rose-200" }

abbrev ring_slate : Ring
ring_slate = record { bg = "bg-slate-50"; text = "text-slate-700"; ring = "ring-slate-200" }

-- The score in whole points, rounded down, a negative one as 0; `none` where it is no finite number.
unfoldable score_tone : Option ℕ → Ring
score_tone none = ring_slate
score_tone (some s) =
    if leb 100 s
    then ring_emerald
    else if leb 80 s
    then ring_brand
    else if leb 50 s
    then ring_amber
    else ring_rose
