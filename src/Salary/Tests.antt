-- ===== src/Salary/Tests.antt =====
-- The salary periods at concrete values.
use hr_profi_uz.Salary.Csv.{name_field, code_field, quote}
use hr_profi_uz.Salary.Fields.{read_field, comma, fields_read_back}
use hr_profi_uz.Slugs.Text.{Text}
use hr_profi_uz.Common.{some, [], ◌∷◌, ◌++◌, ◌≡◌, refl, none}

-- A name with a quote, and a code with one.
abbrev quoted : Text
quoted = b'A' ∷ quote ∷ b'b' ∷ []

abbrev plain : Text
plain = b'7' ∷ []

code_is_lost : read_field (code_field quoted ++ comma ∷ plain) ≡ none
unfolding read_field code_field
code_is_lost = refl

fields_read_back_example :
    (read_field (name_field quoted ++ comma ∷ []) ≡ some (quoted, []))
    × (read_field (code_field plain ++ comma ∷ []) ≡ some (plain, []))
fields_read_back_example = fields_read_back quoted plain [] refl
