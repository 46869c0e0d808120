-- ===== src/Notifications/Patterns.antt =====
-- What the patterns of the old texts match (admin-web/src/lib/notifications-i18n.ts).
use hr_profi_uz.Common.{
  ◌≡◌, ◌∷◌, ◌++◌, ◌≢◌, [], some, true, false, refl, String, arith, Bool, length, none, ◌<◌, ℕ,
  Bool-cases, ◌+◌, inl, inr, length-append, not, if◌then◌else◌, ◌&&◌, Option,
}
use hr_profi_uz.Slugs.Text.{Text, same}
use hr_profi_uz.Notifications.Legacy.{
  rest_group, lazy_group, is_space, is_line, codes, ends_with, is_line_end,
}

-- A name that an old text can hold: not empty, on one line.
abbrev pub IsName : Text → Type 0
IsName name = (name ≢ []) × (is_line name ≡ true)

-- A name that does not begin with a space.
abbrev pub IsFlush : Text → Type 0
IsFlush [] = ⊥
IsFlush (c ∷ cs) = (is_space c ≡ false) × (is_line (c ∷ cs) ≡ true)

pub rest_group-flush : (name : Text) → IsFlush name → rest_group (b' ' ∷ name) ≡ some name
unfolding rest_group
rest_group-flush [] h = elim h [ ]
rest_group-flush (c ∷ cs) (h, k) = rw h (rw k refl)

same-length : (s t : Text) → same s t ≡ true → length s ≡ length t
unfolding same
same-length [] [] h = refl
same-length [] (d ∷ ds) h = ground (arith, h)
same-length (c ∷ cs) [] h = ground (arith, h)
same-length (c ∷ cs) (d ∷ ds) h = ground (arith, h, same-length cs ds)

-- Texts of different lengths are different.
longer_differs : (s t : Text) → length t < length s → same s t ≡ false
longer_differs s t h = elim (Bool-cases (same s t)) [
  | inl e ↦ let absurd : ⊥ = omega (arith, h, same-length s t e) in elim absurd [ ]
  | inr e ↦ e
]

cons_nonempty : (c : ℕ) (cs : Text) → c ∷ cs ≢ []
cons_nonempty c cs h = cc

not_and : (a b : Bool) → (not a && b) ≡ true → (a ≡ false) × (b ≡ true)
not_and true b h = ground (arith, h)
not_and false b h = (refl, h)

pub lazy_group-append :
    (ends : Text → Bool) (name tail : Text)
    → IsName name
    → ends tail ≡ true
    → ((c : ℕ) (s : Text) → ends (c ∷ s ++ tail) ≡ false)
    → lazy_group ends (name ++ tail) ≡ some name
unfolding lazy_group
lazy_group-append ends [] tail h e f = elim (h.0 refl) [ ]
lazy_group-append ends (c ∷ []) tail h e f = rw ((not_and (is_line_end c) true h.1).0, e) refl
lazy_group-append ends (c ∷ d ∷ ds) tail h e f =
    let line = not_and (is_line_end c) (is_line (d ∷ ds)) h.1 in
    rw (line.0, f d ds, lazy_group-append ends (d ∷ ds) tail (cons_nonempty d ds, line.1) e f) refl

if_none :
    (b : Bool) → let nothing : Option Text = none in (if b then nothing else nothing) ≡ nothing
if_none true = refl
if_none false = refl

pub lazy_group-none :
    (ends : Text → Bool) (name tail : Text)
    → ends tail ≡ false
    → lazy_group ends tail ≡ none
    → ((c : ℕ) (s : Text) → ends (c ∷ s ++ tail) ≡ false)
    → lazy_group ends (name ++ tail) ≡ none
unfolding lazy_group
lazy_group-none ends [] tail e h f = h
lazy_group-none ends (c ∷ []) tail e h f = rw (e, h) (if_none (is_line_end c))
lazy_group-none ends (c ∷ d ∷ ds) tail e h f =
    rw (f d ds, lazy_group-none ends (d ∷ ds) tail e h f) (if_none (is_line_end c))

-- A text that is longer than an ending and its full stop does not end with it.
pub ends_with-longer :
    (phrase : String) (cs : Text)
    → length (codes phrase) + 1 < length cs
    → ends_with phrase cs ≡ false
ends_with-longer phrase cs h = rw (longer_differs cs (codes phrase) (omega (arith, h))) (
    longer_differs cs (codes phrase ++ b'.' ∷ [])
      (omega (arith, h, length-append (codes phrase) (b'.' ∷ []))))
