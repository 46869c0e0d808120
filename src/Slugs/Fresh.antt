-- ===== src/Slugs/Fresh.antt =====
-- The loop of `uniqueSlug` ends (admin-web/src/pages/owner/companies/CompanyForm.tsx).
use hr_profi_uz.Slugs.Text.{Text, has, same, first_free, unique_slug, numbered, is_nil, dash}
use hr_profi_uz.Common.{
  ℕ, List, true, false, [], ◌∷◌, ◌≡◌, refl, arith, length, ◌≤◌, ◌<◌, ◌+◌, suc, zero, some, ap,
  if◌then◌else◌, Bool-cases, inl, inr, ◌⊎◌, subst, ◌++◌, ◌∙◌,
}

same-eq : (a b : Text) → same a b ≡ true → a ≡ b
unfolding same
same-eq [] [] h = refl
same-eq [] (d ∷ ds) h = cc
same-eq (c ∷ cs) [] h = cc
same-eq (c ∷ cs) (d ∷ ds) h = ground (arith, same-eq cs ds)

same_refl : (a : Text) → same a a ≡ true
unfolding same
same_refl [] = refl
same_refl (c ∷ cs) = ground (arith, same_refl cs)

-- The list without its entries that are `t`.
abbrev drop_same : Text → List Text → List Text
drop_same t [] = []
drop_same t (s ∷ ss) = let rest = drop_same t ss in if same s t then rest else s ∷ rest

drop_same-le : (t : Text) (ss : List Text) → length (drop_same t ss) ≤ length ss
drop_same-le t [] = omega arith
drop_same-le t (s ∷ ss) = ground (arith, drop_same-le t ss)

drop_same-lt : (t : Text) (ss : List Text) → has ss t ≡ true → length (drop_same t ss) < length ss
unfolding has
drop_same-lt t [] h = cc
drop_same-lt t (s ∷ ss) h = ground (arith, drop_same-lt t ss, drop_same-le t ss)

has-drop_same : (t u : Text) (ss : List Text) → same t u ≡ false → has (drop_same t ss) u ≡ has ss u
unfolding has
has-drop_same t u [] h = refl
has-drop_same t u (s ∷ ss) h = elim (Bool-cases (same s t)) [
  | inl e ↦ ground (arith, e, ap (λ (x : Text). same x u) (same-eq s t e), has-drop_same t u ss h)
  | inr e ↦ ground (arith, e, has-drop_same t u ss h)
]

module _ (name : ℕ → Text) (apart : (i j : ℕ) → i < j → same (name i) (name j) ≡ false) where
  first_free-drop_same :
      (fuel i j : ℕ) (ss : List Text)
      → j < i
      → first_free name (drop_same (name j) ss) fuel i ≡ first_free name ss fuel i
  unfolding first_free
  first_free-drop_same zero i j ss h = refl
  first_free-drop_same (suc fuel) i j ss h = ground (
    arith,
    has-drop_same (name j) (name i) ss (apart j i h),
    first_free-drop_same fuel (i + 1) j ss,
  )

  first_free_found :
      (fuel i : ℕ) (ss : List Text)
      → length ss < fuel
      → (k : ℕ) × (first_free name ss fuel i ≡ some k)
  unfolding first_free
  first_free_found zero i ss h = absurd (omega arith)
  first_free_found (suc fuel) i ss h = elim (Bool-cases (has ss (name i))) [
    | inl taken ↦
        let (k, found) =
          first_free_found fuel (i + 1) (drop_same (name i) ss)
            (ground (arith, drop_same-lt (name i) ss)) in
        (k, ground (arith, taken, found, first_free-drop_same fuel (i + 1) i ss))
    | inr free ↦ (i, rw free refl)
  ]

module _ (name : ℕ → Text) (ss : List Text) where
  -- The `n` names from the number `i` on are taken.
  abbrev pub AreTaken : ℕ → ℕ → Type 0
  AreTaken i zero = Unit
  AreTaken i (suc n) = (has ss (name i) ≡ true) × AreTaken (i + 1) n

  -- What the loop finds: the first number from `i` on whose name is free.
  abbrev pub IsFirst : ℕ → ℕ → Type 0
  IsFirst i k = (n : ℕ) × (k ≡ i + n) × AreTaken i n × (has ss (name k) ≡ false)

  first_free-IsFirst : (fuel i : ℕ) (k : ℕ) → first_free name ss fuel i ≡ some k → IsFirst i k
  unfolding first_free
  first_free-IsFirst zero i k h = cc
  first_free-IsFirst (suc fuel) i k h = elim (Bool-cases (has ss (name i))) [
    | inl taken ↦
        let (n, e, before, free) = first_free-IsFirst fuel (i + 1) k (ground (arith, taken, h)) in
        (suc n, omega (arith, e), (taken, before), free)
    | inr free ↦
        let e : i ≡ k = ground (arith, free, h) in
        (0, omega (arith, e), tt, subst (λ x. has ss (name x) ≡ false) e free)
  ]

-- The two parts of a name keep names apart: different numbers are written differently.
abbrev pub Writes : (ℕ → Text) → Type 0
Writes show = (i j : ℕ) → i < j → same (show i) (show j) ≡ false

same-append : (a b c : Text) → same (a ++ b) (a ++ c) ≡ same b c
unfolding same
same-append [] b c = refl
same-append (x ∷ a) b c = ground (arith, same-append a b c)

dash_first : (a b : Text) → same a b ≡ false → same (dash ∷ a) (dash ∷ b) ≡ false
unfolding same
dash_first a b h = h

module _ (show : ℕ → Text) (writes : Writes show) where
  numbered_apart :
      (base : Text) (i j : ℕ) → i < j → same (numbered show base i) (numbered show base j) ≡ false
  numbered_apart base i j h =
      same-append base (dash ∷ show i) (dash ∷ show j) ∙ dash_first (show i) (show j) (writes i j h)

  -- When different numbers are written differently, `uniqueSlug` always comes to an end: on a text that is
  -- not empty it returns the text itself if it is free, and else the text with the first number from 2 on
  -- that makes it free; the result is free.
  pub unique_slug_found :
      (base : Text) (existing : List Text)
      → is_nil base ≡ false
      → (slug : Text) × (unique_slug show base existing ≡ some slug)
        × (has existing slug ≡ false)
        × (((has existing base ≡ false) × (slug ≡ base))
            ⊎ ((has existing base ≡ true)
                × (k : ℕ) × (slug ≡ numbered show base k)
                × IsFirst (numbered show base) existing 2 k))
  unfolding unique_slug
  unique_slug_found base existing full = elim (Bool-cases (has existing base)) [
    | inl taken ↦
        let name = numbered show base in
        let (k, found) =
          first_free_found name (numbered_apart base) (suc (length existing)) 2 existing
            (omega arith) in
        let (n, e, before, free) =
          first_free-IsFirst name existing (suc (length existing)) 2 k found in
        (
          name k,
          ground (arith, full, taken, found),
          free,
          inr (taken, k, refl, (n, e, before, free)),
        )
    | inr free ↦ (base, ground (arith, full, free), free, inl (free, refl))
  ]
