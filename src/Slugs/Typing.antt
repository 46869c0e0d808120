-- ===== src/Slugs/Typing.antt =====
-- Typing into the two inputs (admin-web/src/pages/owner/companies/CompanyForm.tsx).
use hr_profi_uz.Slugs.Text.{
  Text, dash, is_alnum, is_nil, without, slugify, unique_slug, has, numbered,
}
use hr_profi_uz.Slugs.Field.{SlugFields, on_name_change, on_slug_change, suggested}
use hr_profi_uz.Slugs.Shape.{is_slug_char, tidy, slugify_shape}
use hr_profi_uz.Slugs.Fresh.{Writes, unique_slug_found}
use hr_profi_uz.Common.{
  ℕ, Bool, true, false, List, not, ◌∷◌, ◌≡◌, ◌⊎◌, ◌||◌, ◌++◌, ◌&&◌, arith, [], ◌==◌, refl, inl,
  Bool-cases, inr,
}

abbrev pub clean : Text → Bool
clean [] = true
clean (c ∷ cs) = is_slug_char c && clean cs

tidy-clean : (t : Text) → tidy t ≡ true → clean t ≡ true
tidy-clean [] h = refl
tidy-clean (c ∷ cs) h = ground (arith, tidy-clean cs)

clean-append : (a b : Text) → clean a ≡ true → clean b ≡ true → clean (a ++ b) ≡ true
clean-append [] b h k = k
clean-append (c ∷ cs) b h k = ground (arith, clean-append cs b)

clean-without : (cs : Text) → clean (without (λ c. not (is_alnum c || c == dash)) cs) ≡ true
unfolding without
clean-without [] = refl
clean-without (c ∷ cs) = ground (arith, clean-without cs)

nil_cases : (t : Text) → (is_nil t ≡ false) ⊎ (t ≡ [])
nil_cases [] = inr refl
nil_cases (c ∷ cs) = inl refl

-- What the user does: types into the input of the name, or into that of the slug.
pub data Typed : Type 0 where
  types_name types_slug : Text → Typed

module _ (lower nfd : Text → Text) (show : ℕ → Text) (existing : List Text) where
  unfoldable pub typed : Typed → SlugFields → SlugFields
  typed (types_name v) s = on_name_change lower nfd show existing v s
  typed (types_slug v) s = on_slug_change lower nfd show v s

  -- The slug has only the characters of a slug, and one that the user did not type is empty or free.
  pub record IsSound (s : SlugFields) : Type 0 where
    pub chars : clean s.slug ≡ true
    pub free : (s.slug_touched ≡ true) ⊎ ((s.slug ≡ []) ⊎ (has existing s.slug ≡ false))

  abbrev pub IsSuggestion : Text → Type 0
  IsSuggestion slug = (clean slug ≡ true) × ((slug ≡ []) ⊎ (has existing slug ≡ false))

  module _ (writes : Writes show) (digits : (i : ℕ) → clean (show i) ≡ true) where
    blank_sound :
        (base old : Text)
        → is_nil base ≡ true
        → IsSuggestion (suggested (unique_slug show base existing) old)
    unfolding unique_slug
    blank_sound [] old h = (refl, inl refl)
    blank_sound (c ∷ cs) old h = cc

    numbered-clean : (base : Text) (k : ℕ) → clean base ≡ true → clean (numbered show base k) ≡ true
    numbered-clean base k h = clean-append base (dash ∷ show k) h (digits k)

    full_sound :
        (base old : Text)
        → is_nil base ≡ false
        → clean base ≡ true
        → IsSuggestion (suggested (unique_slug show base existing) old)
    full_sound base old full shape =
        let (slug, found, free, how) = unique_slug_found show writes base existing full in
        rw found (
          elim how [
            | inl (_, e) ↦ rw e shape
            | inr (_, k, e, _) ↦ rw e (numbered-clean base k shape)
          ],
          inr free,
        )

    suggested-IsSound :
        (v old : Text)
        → IsSuggestion (suggested (unique_slug show (slugify lower nfd v) existing) old)
    suggested-IsSound v old =
        let base = slugify lower nfd v in
        let shape = tidy-clean base (slugify_shape lower nfd v).only in
        elim (Bool-cases (is_nil base)) [
          | inl blank ↦ blank_sound base old blank
          | inr full ↦ full_sound base old full shape
        ]

    -- Whatever is typed into the two inputs, the slug keeps to the characters of a slug, and a suggested one
    -- is empty or is the slug of no other company, if numbers are written in small letters and digits, and
    -- different ones differently.
    pub typed-IsSound : (e : Typed) (s : SlugFields) → IsSound s → IsSound (typed e s)
    unfolding typed on_name_change on_slug_change
    typed-IsSound (types_name v) s sound = ground (arith, suggested-IsSound v s.slug)
    typed-IsSound (types_slug v) s sound =
        let cleaned = without (λ c. not (is_alnum c || c == dash)) (lower v) in
        ground (arith, clean-without (lower v), nil_cases cleaned)
