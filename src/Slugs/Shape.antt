-- ===== src/Slugs/Shape.antt =====
-- The characters of a slug (admin-web/src/pages/owner/companies/CompanyForm.tsx).
use hr_profi_uz.Slugs.Text.{
  Text, dash, is_alnum, is_nil, hyphenate, trim_start, trim_end, words, slugify, without, is_mark,
  is_apostrophe, transliterate,
}
use hr_profi_uz.Common.{
  ℕ, Bool, true, false, not, ◌&&◌, ◌||◌, ◌==◌, [], ◌∷◌, ◌≡◌, refl, arith, take, length, ◌≤◌, suc,
  zero, ap, inr, Bool-cases, ◌<◌, leb, ◌⊎◌, inl, ◌∙◌,
}

abbrev pub is_slug_char : ℕ → Bool
is_slug_char c = is_alnum c || c == dash

abbrev pub starts_dash : Text → Bool
starts_dash [] = false
starts_dash (c ∷ cs) = c == dash

abbrev pub ends_dash : Text → Bool
ends_dash [] = false
ends_dash (c ∷ cs) = (c == dash && is_nil cs) || ends_dash cs

-- Only the characters of a slug, and no two dashes side by side.
abbrev pub tidy : Text → Bool
tidy [] = true
tidy (c ∷ cs) = is_slug_char c && (not (c == dash && starts_dash cs) && tidy cs)

hyphenate-tidy :
    (in_run : Bool) (cs : Text)
    → (tidy (hyphenate in_run cs) ≡ true) × ((in_run && starts_dash (hyphenate in_run cs)) ≡ false)
unfolding hyphenate
hyphenate-tidy in_run [] = ground arith
hyphenate-tidy in_run (c ∷ cs) = ground (arith, hyphenate-tidy (not (is_alnum c)) cs)

trim_start-tidy :
    (cs : Text)
    → tidy cs ≡ true
    → (tidy (trim_start cs) ≡ true) × (starts_dash (trim_start cs) ≡ false)
unfolding trim_start
trim_start-tidy [] h = ground arith
trim_start-tidy (c ∷ cs) h = ground (arith, trim_start-tidy cs)

trim_end-tidy :
    (cs : Text)
    → tidy cs ≡ true
    → (tidy (trim_end cs) ≡ true)
      × ((starts_dash (trim_end cs) && not (starts_dash cs)) ≡ false)
      × (ends_dash (trim_end cs) ≡ false)
unfolding trim_end
trim_end-tidy [] h = ground arith
trim_end-tidy (c ∷ cs) h = ground (arith, trim_end-tidy cs)

take-tidy :
    (n : ℕ) (cs : Text)
    → tidy cs ≡ true
    → (tidy (take n cs) ≡ true)
      × ((starts_dash (take n cs) && not (starts_dash cs)) ≡ false)
      × (length (take n cs) ≤ n)
take-tidy zero cs h = ground arith
take-tidy (suc n) [] h = ground arith
take-tidy (suc n) (c ∷ cs) h = ground (arith, take-tidy n cs)

take-short : (n : ℕ) (cs : Text) → length cs ≤ n → take n cs ≡ cs
take-short zero [] h = refl
take-short zero (c ∷ cs) h = ground arith
take-short (suc n) [] h = refl
take-short (suc n) (c ∷ cs) h = ap (λ t. c ∷ t) (take-short n cs (ground arith))

leb→le : (a b : ℕ) → leb a b ≡ true → a ≤ b
leb→le a b h = ground arith

ltb-of-leb : (a b : ℕ) → leb a b ≡ false → b < a
ltb-of-leb a b h = ground arith

take-start : (w : Text) → starts_dash w ≡ false → starts_dash (take 50 w) ≡ false
take-start [] h = refl
take-start (c ∷ cs) h = h

cut_end : (w : Text) → ends_dash w ≡ false → (50 < length w) ⊎ (ends_dash (take 50 w) ≡ false)
cut_end w h = elim (Bool-cases (leb (length w) 50)) [
  | inl short ↦ inr (ap ends_dash (take-short 50 w (leb→le (length w) 50 short)) ∙ h)
  | inr long ↦ inl (ltb-of-leb (length w) 50 long)
]

-- What a slug is, and `w` the text before the cut.
pub record IsCut (w slug : Text) : Type 0 where
  pub only : tidy slug ≡ true
  pub start : starts_dash slug ≡ false
  pub short : length slug ≤ 50
  pub end : (50 < length w) ⊎ (ends_dash slug ≡ false)

slug-IsCut :
    (w : Text) → tidy w ≡ true → starts_dash w ≡ false → ends_dash w ≡ false → IsCut w (take 50 w)
slug-IsCut w only start end =
    let (tidy_cut, _, short_cut) = take-tidy 50 w only in
    record { only = tidy_cut; start = take-start w start; short = short_cut; end = cut_end w end }

module _ (lower nfd : Text → Text) where
  words-tidy :
      (input : Text)
      → (tidy (words lower nfd input) ≡ true)
        × (starts_dash (words lower nfd input) ≡ false)
        × (ends_dash (words lower nfd input) ≡ false)
  unfolding words
  words-tidy input =
      let letters = without is_apostrophe (without is_mark (nfd (transliterate (lower input)))) in
      let dashed = hyphenate-tidy false letters in
      let started = trim_start-tidy (hyphenate false letters) (dashed.0) in
      ground (arith, started, trim_end-tidy (trim_start (hyphenate false letters)) (started.0))

  -- Whatever the platform's lower case and normal form do, a slug has only small Latin letters, digits and
  -- dashes, no two dashes side by side, none at its start, and at most 50 characters; it has none at its
  -- end either, unless the text before the cut has more than 50 characters.
  pub slugify_shape : (input : Text) → IsCut (words lower nfd input) (slugify lower nfd input)
  unfolding slugify
  slugify_shape [] = record { only = refl; start = refl; short = omega arith; end = inr refl }
  slugify_shape (c ∷ cs) =
      let (only, start, end) = words-tidy (c ∷ cs) in
      slug-IsCut (words lower nfd (c ∷ cs)) only start end
