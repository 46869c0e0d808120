-- ===== src/Salary/Csv.antt =====
-- The two texts of a line of `exportCsv` (admin-web/src/pages/app/salary/PeriodsTab.tsx). A text is the
-- list of its code units.
use hr_profi_uz.Slugs.Text.{Text}
use hr_profi_uz.Common.{[], ◌∷◌, ◌++◌, ℕ, ◌==◌, if◌then◌else◌}

abbrev pub quote : ℕ
quote = b'"'

-- `replace(/"/g, '""')`
unfoldable pub doubled : Text → Text
doubled [] = []
doubled (c ∷ cs) = let rest = doubled cs in if c == quote then quote ∷ quote ∷ rest else c ∷ rest

unfoldable pub name_field : Text → Text
name_field name = quote ∷ doubled name ++ quote ∷ []

unfoldable pub code_field : Text → Text
code_field code = quote ∷ code ++ quote ∷ []
