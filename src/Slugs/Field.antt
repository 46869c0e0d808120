-- ===== src/Slugs/Field.antt =====
-- The inputs of the name and of the slug (admin-web/src/pages/owner/companies/CompanyForm.tsx).
use hr_profi_uz.Slugs.Text.{Text, dash, is_alnum, is_nil, slugify, unique_slug, without}
use hr_profi_uz.Common.{
  ℕ, List, Bool, Option, none, some, false, ◌||◌, not, ◌==◌, if◌then◌else◌, ◌∷◌, [],
}

-- A row of `slugsQ.data`.
pub record SlugRow : Type 0 where
  pub id : ℕ
  pub slug : Text

abbrev pub is_company : Option ℕ → ℕ → Bool
is_company none id = false
is_company (some company) id = company == id

-- `existingSlugs`: the slugs of the other companies.
unfoldable pub existing_slugs : Option ℕ → List SlugRow → List Text
existing_slugs company [] = []
existing_slugs company (row ∷ rows) =
    let rest = existing_slugs company rows in
    if is_company company row.id then rest else row.slug ∷ rest

-- The part of the form's state that the two inputs change.
pub record SlugFields : Type 0 where
  pub name : Text
  pub slug : Text
  pub slug_touched : Bool

-- `unique_slug` always returns: the first clause is never reached.
abbrev pub suggested : Option Text → Text → Text
suggested none old = old
suggested (some slug) old = slug

module _ (lower nfd : Text → Text) (show : ℕ → Text) where
  unfoldable pub on_name_change : List Text → Text → SlugFields → SlugFields
  unfolding slugify unique_slug
  on_name_change existing v s = if s.slug_touched then record s { name = v } else record s {
    name = v;
    slug = suggested (unique_slug show (slugify lower nfd v) existing) s.slug;
  }

  unfoldable pub on_slug_change : Text → SlugFields → SlugFields
  unfolding without
  on_slug_change raw s =
      let cleaned = without (λ c. not (is_alnum c || c == dash)) (lower raw) in
      record s { slug = cleaned; slug_touched = not (is_nil cleaned) }
