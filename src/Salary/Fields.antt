-- ===== src/Salary/Fields.antt =====
-- What a reader of the exported file finds (admin-web/src/pages/app/salary/PeriodsTab.tsx).
use hr_profi_uz.Slugs.Text.{Text}
use hr_profi_uz.Salary.Csv.{quote, doubled, name_field, code_field}
use mathlib.Core.List.{append_assoc}
use hr_profi_uz.Common.{
  [], ◌∷◌, ◌++◌, ℕ, ◌==◌, Option, none, some, false, if◌then◌else◌, ◌≡◌, refl, arith, any,
  Bool-cases, inl, inr, ap, subst, ◌∙◌, true,
}

abbrev pub comma : ℕ
comma = b','

abbrev put_first : ℕ → Option (Text × Text) → Option (Text × Text)
put_first c none = none
put_first c (some (field, rest)) = some (c ∷ field, rest)

-- Reading a quoted field up to its comma, as comma-separated files are read: two quotes stand for one, and
-- anything but a comma after the closing quote is an error.
unfoldable pub read_quoted : Text → Option (Text × Text)
read_quoted [] = none
read_quoted (c ∷ []) = none
read_quoted (c ∷ d ∷ cs) =
    let doubled_quote = put_first quote (read_quoted cs) in
    let plain = put_first c (read_quoted (d ∷ cs)) in
    if c == quote
    then (if d == quote then doubled_quote else if d == comma then some ([], cs) else none)
    else plain

unfoldable pub read_field : Text → Option (Text × Text)
unfolding read_quoted
read_field [] = none
read_field (c ∷ cs) = if c == quote then read_quoted cs else none

read_plain :
    (c : ℕ) (t : Text) → (c == quote) ≡ false → read_quoted (c ∷ t) ≡ put_first c (read_quoted t)
unfolding read_quoted
read_plain c [] h = refl
read_plain c (d ∷ t) h = rw (h, read_quoted) refl

is_quote : (c : ℕ) → (c == quote) ≡ true → quote ≡ c
is_quote c h = ground arith

read_quoted-doubled :
    (name rest : Text) → read_quoted (doubled name ++ quote ∷ comma ∷ rest) ≡ some (name, rest)
unfolding doubled read_quoted
read_quoted-doubled [] rest = refl
read_quoted-doubled (c ∷ cs) rest =
    let later = ap (λ (z : Option (Text × Text)). put_first c z) (read_quoted-doubled cs rest) in
    elim (Bool-cases (c == quote)) [
      | inl e ↦
          let same = is_quote c e in
          let head =
            ap (λ (z : Option (Text × Text)). put_first quote z) (read_quoted-doubled cs rest) in
          rw (e, doubled) (head ∙ ap (λ (z : ℕ). some (z ∷ cs, rest)) same)
      | inr e ↦ rw (e, doubled) (read_plain c (doubled cs ++ quote ∷ comma ∷ rest) e ∙ later)
    ]

doubled_plain : (code : Text) → any (λ c. c == quote) code ≡ false → doubled code ≡ code
unfolding doubled
doubled_plain [] h = refl
doubled_plain (c ∷ cs) h = ground (arith, h, doubled_plain cs)

read_field-name_field :
    (name rest : Text) → read_field (name_field name ++ comma ∷ rest) ≡ some (name, rest)
unfolding read_field name_field
read_field-name_field name rest =
    ap (λ (z : Text). read_quoted z) (append_assoc (doubled name) (quote ∷ []) (comma ∷ rest))
    ∙ read_quoted-doubled name rest

-- A reader of comma-separated files gets every name back, and an employee's code that has no quote in it;
-- what follows the comma is left for the next field.
pub fields_read_back :
    (name code rest : Text)
    → any (λ c. c == quote) code ≡ false
    → (read_field (name_field name ++ comma ∷ rest) ≡ some (name, rest))
      × (read_field (code_field code ++ comma ∷ rest) ≡ some (code, rest))
unfolding name_field code_field
fields_read_back name code rest h = (
  read_field-name_field name rest,
  subst (λ z. read_field ((quote ∷ z ++ quote ∷ []) ++ comma ∷ rest) ≡ some (code, rest))
      (doubled_plain code h) (read_field-name_field code rest),
)
