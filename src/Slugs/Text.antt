-- ===== src/Slugs/Text.antt =====
-- `slugify` and `uniqueSlug` of admin-web/src/pages/owner/companies/CompanyForm.tsx. A text is the list
-- of its code points.
use hr_profi_uz.Common.{
  ℕ, List, Bool, Option, none, some, true, false, [], ◌∷◌, ◌++◌, ◌&&◌, ◌||◌, not, leb, ◌==◌, take,
  if◌then◌else◌, suc, zero, ◌+◌, length,
}

abbrev pub Text : Type 0
Text = List ℕ

abbrev pub dash : ℕ
dash = b'-'

-- `[a-z0-9]`
abbrev pub is_alnum : ℕ → Bool
is_alnum c = (leb b'a' c && leb c b'z') || (leb b'0' c && leb c b'9')

-- `CYR`
abbrev pub cyr : List (ℕ × Text)
cyr =
    (1072, b'a' ∷ [])
    ∷ (1073, b'b' ∷ [])
    ∷ (1074, b'v' ∷ [])
    ∷ (1075, b'g' ∷ [])
    ∷ (1076, b'd' ∷ [])
    ∷ (1077, b'e' ∷ [])
    ∷ (1105, b'y' ∷ b'o' ∷ [])
    ∷ (1078, b'z' ∷ b'h' ∷ [])
    ∷ (1079, b'z' ∷ [])
    ∷ (1080, b'i' ∷ [])
    ∷ (1081, b'y' ∷ [])
    ∷ (1082, b'k' ∷ [])
    ∷ (1083, b'l' ∷ [])
    ∷ (1084, b'm' ∷ [])
    ∷ (1085, b'n' ∷ [])
    ∷ (1086, b'o' ∷ [])
    ∷ (1087, b'p' ∷ [])
    ∷ (1088, b'r' ∷ [])
    ∷ (1089, b's' ∷ [])
    ∷ (1090, b't' ∷ [])
    ∷ (1091, b'u' ∷ [])
    ∷ (1092, b'f' ∷ [])
    ∷ (1093, b'h' ∷ [])
    ∷ (1094, b't' ∷ b's' ∷ [])
    ∷ (1095, b'c' ∷ b'h' ∷ [])
    ∷ (1096, b's' ∷ b'h' ∷ [])
    ∷ (1097, b's' ∷ b'c' ∷ b'h' ∷ [])
    ∷ (1098, [])
    ∷ (1099, b'y' ∷ [])
    ∷ (1100, [])
    ∷ (1101, b'e' ∷ [])
    ∷ (1102, b'y' ∷ b'u' ∷ [])
    ∷ (1103, b'y' ∷ b'a' ∷ [])
    ∷ (1118, b'o' ∷ [])
    ∷ (1171, b'g' ∷ [])
    ∷ (1179, b'q' ∷ [])
    ∷ (1203, b'h' ∷ [])
    ∷ (1207, b'j' ∷ [])
    ∷ (1251, b'i' ∷ [])
    ∷ []

-- `CYR[ch] ?? ch`
unfoldable pub latin : List (ℕ × Text) → ℕ → Text
latin [] c = c ∷ []
latin ((k, s) ∷ table) c = if k == c then s else latin table c

unfoldable pub transliterate : Text → Text
unfolding latin
transliterate [] = []
transliterate (c ∷ cs) = latin cyr c ++ transliterate cs

-- The two classes of characters that are taken out: combining marks, and apostrophes.
abbrev pub is_mark : ℕ → Bool
is_mark c = leb 768 c && leb c 879

abbrev pub is_apostrophe : ℕ → Bool
is_apostrophe c = c == 39 || (c == 700 || (c == 697 || c == 96))

unfoldable pub without : (ℕ → Bool) → Text → Text
without p [] = []
without p (c ∷ cs) = let rest = without p cs in if p c then rest else c ∷ rest

-- `replace(/[^a-z0-9]+/g, "-")`; the flag says that a run has begun.
unfoldable pub hyphenate : Bool → Text → Text
hyphenate in_run [] = []
hyphenate in_run (c ∷ cs) =
    let rest = hyphenate (not (is_alnum c)) cs in
    if is_alnum c then c ∷ rest else if in_run then rest else dash ∷ rest

abbrev pub is_nil : Text → Bool
is_nil [] = true
is_nil (c ∷ cs) = false

-- `replace(/^-+|-+$/g, "")`
unfoldable pub trim_start : Text → Text
trim_start [] = []
trim_start (c ∷ cs) = let rest = trim_start cs in if c == dash then rest else c ∷ cs

unfoldable pub trim_end : Text → Text
trim_end [] = []
trim_end (c ∷ cs) = let rest = trim_end cs in if c == dash && is_nil rest then [] else c ∷ rest

module _ (lower nfd : Text → Text) where
  -- `slugify` before the cut.
  unfoldable pub words : Text → Text
  unfolding transliterate without hyphenate trim_start trim_end
  words input = trim_end (
      trim_start (
        hyphenate false
          (without is_apostrophe (without is_mark (nfd (transliterate (lower input)))))))

  unfoldable pub slugify : Text → Text
  unfolding words
  slugify input = if is_nil input then [] else take 50 (words input)

unfoldable pub same : Text → Text → Bool
same [] [] = true
same [] (d ∷ ds) = false
same (c ∷ cs) [] = false
same (c ∷ cs) (d ∷ ds) = let rest = same cs ds in c == d && rest

-- `existing.has`
unfoldable pub has : List Text → Text → Bool
unfolding same
has [] t = false
has (s ∷ existing) t = let rest = has existing t in same s t || rest

-- `${base}-${i}`; `show` writes a number in digits.
abbrev pub numbered : (ℕ → Text) → Text → ℕ → Text
numbered show base i = base ++ dash ∷ show i

-- The `while` loop, for at most `fuel` tests.
unfoldable pub first_free : (ℕ → Text) → List Text → ℕ → ℕ → Option ℕ
unfolding has
first_free name existing zero i = none
first_free name existing (suc fuel) i =
    let rest = first_free name existing fuel (i + 1) in
    if has existing (name i) then rest else some i

abbrev pub named : (ℕ → Text) → Option ℕ → Option Text
named name none = none
named name (some i) = some (name i)

-- The loop has as many tests as there are slugs, and one more.
unfoldable pub unique_slug : (ℕ → Text) → Text → List Text → Option Text
unfolding has first_free
unique_slug show base existing =
    if is_nil base
    then some []
    else if has existing base
    then named (numbered show base)
        (first_free (numbered show base) existing (suc (length existing)) 2)
    else some base
