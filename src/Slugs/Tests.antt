-- ===== src/Slugs/Tests.antt =====
-- The theorems on slugs at concrete texts.
use hr_profi_uz.Slugs.Text.{Text, unique_slug, same, has, numbered, slugify}
use hr_profi_uz.Slugs.Field.{SlugFields}
use hr_profi_uz.Slugs.Fresh.{Writes, unique_slug_found, IsFirst}
use hr_profi_uz.Slugs.Typing.{clean, typed, types_name, IsSound, typed-IsSound}
use hr_profi_uz.Common.{
  ℕ, zero, suc, [], ◌∷◌, ◌≡◌, true, false, refl, arith, some, List, ◌⊎◌, inr, inl,
}

abbrev same_text : Text → Text
same_text t = t

-- Numbers as strokes.
abbrev strokes : ℕ → Text
strokes zero = []
strokes (suc n) = b'1' ∷ strokes n

strokes_apart : Writes strokes
unfolding same
strokes_apart zero zero h = absurd (omega arith)
strokes_apart zero (suc j) h = refl
strokes_apart (suc i) zero h = absurd (omega arith)
strokes_apart (suc i) (suc j) h = ground (arith, strokes_apart i j)

strokes-clean : (i : ℕ) → clean (strokes i) ≡ true
strokes-clean zero = refl
strokes-clean (suc i) = ground (arith, strokes-clean i)

-- `Ab, c`
abbrev name : Text
name = b'a' ∷ b'b' ∷ b',' ∷ b' ' ∷ b'c' ∷ []

abbrev taken : List Text
taken = (b'a' ∷ []) ∷ []

unique_slug_found_example :
    (slug : Text) × (unique_slug strokes (b'a' ∷ []) taken ≡ some slug)
    × (has taken slug ≡ false)
    × (((has taken (b'a' ∷ []) ≡ false) × (slug ≡ b'a' ∷ []))
        ⊎ ((has taken (b'a' ∷ []) ≡ true)
            × (k : ℕ) × (slug ≡ numbered strokes (b'a' ∷ []) k)
            × IsFirst (numbered strokes (b'a' ∷ [])) taken 2 k))
unique_slug_found_example = unique_slug_found strokes strokes_apart (b'a' ∷ []) taken refl

abbrev empty_fields : SlugFields
empty_fields = record { name = []; slug = []; slug_touched = false }

empty_fields-IsSound : IsSound same_text same_text strokes taken empty_fields
empty_fields-IsSound = record { chars = refl; free = inr (inl refl) }

typed-IsSound_example :
    IsSound same_text same_text strokes taken
      (typed same_text same_text strokes taken (types_name name) empty_fields)
typed-IsSound_example =
    typed-IsSound same_text same_text strokes taken strokes_apart strokes-clean (types_name name)
      empty_fields empty_fields-IsSound

name_runs : slugify same_text same_text name ≡ b'a' ∷ b'b' ∷ b'-' ∷ b'c' ∷ []
unfolding slugify
name_runs = refl
