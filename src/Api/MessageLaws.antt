-- ===== src/Api/MessageLaws.antt =====
-- The texts of errors are never blank (admin-web/src/lib/api.ts, mobile/src/api/client.ts,
-- kiosk-web/src/lib/api.ts, client-web/lib/api.ts).
use hr_profi_uz.Api.Message.{
  ValidationDetail, ◌+++◌, label_from, api_error_message, describe_validation_error, or_else,
  ErrorData, limit_text, axios_error, join_dots, tail_of, described, errors_of, message_of,
  description_or,
}
use hr_profi_uz.Common.{
  String, is_blank, ◌≡◌, false, arith, Bool-cases, inl, eq_iff, inr, Option, some, List, none, ◌⊎◌,
  refl, ◌∷◌, [],
}
use Prim.Native.Char.{Char}
use text.Mathlib.TextLemmas.{cons-append}

cons-not_blank : (c : Char) (s : String) → is_blank (String.◌∷◌ c s) ≡ false
cons-not_blank c s = elim (Bool-cases (is_blank (String.◌∷◌ c s))) [
  | inl blank ↦ absurd (ne c s ((eq_iff _ _).0 blank))
  | inr full ↦ full
]
  where
    ne : (c : Char) (s : String) → ¬ (String.◌∷◌ c s ≡ "")
    ne c s e = cc

append-not_blank : (a b : String) → is_blank a ≡ false → is_blank (a +++ b) ≡ false
append-not_blank String.[] b h = cc
append-not_blank (String.◌∷◌ c s) b h = rw cons-append (cons-not_blank c (s +++ b))

or_else-not_blank : (a b : String) → is_blank b ≡ false → is_blank (or_else a b) ≡ false
or_else-not_blank a b h = elim (Bool-cases (is_blank a)) [
  | inl blank ↦ rw blank h
  | inr full ↦ rw full full
]

label_from-not_blank : (loc : Option (List String)) → is_blank (label_from loc) ≡ false
unfolding label_from
label_from-not_blank none = refl
label_from-not_blank (some loc) = or_else-not_blank (join_dots (tail_of loc)) "value" refl

-- A description of a validation error is never blank.
describe-not_blank :
    (d : ValidationDetail) (text : String)
    → describe_validation_error d ≡ some text
    → is_blank text ≡ false
unfolding describe_validation_error
describe-not_blank d text h =
    let label = label_from d.loc in
    let full = label_from-not_blank d.loc in
    ground (
      arith,
      append-not_blank label (": " +++ limit_text "min " d.min_length d.msg) full,
      append-not_blank label (": " +++ limit_text "max " d.max_length d.msg) full,
      append-not_blank label ": required" full,
      append-not_blank label (": " +++ d.msg) full,
    )

description_or-not_blank :
    (o : Option String) (plain : String)
    → ((text : String) → o ≡ some text → is_blank text ≡ false)
    → is_blank plain ≡ false
    → (is_blank (description_or o plain) ≡ false)
      × ((o ≡ none) ⊎ (o ≡ some (description_or o plain)))
description_or-not_blank none plain h k = (k, inl refl)
description_or-not_blank (some text) plain h k = let full = h text refl in rw full (full, inr refl)

described-not_blank :
    (errors : Option (List ValidationDetail)) (text : String)
    → described errors ≡ some text
    → is_blank text ≡ false
described-not_blank none text h = cc
described-not_blank (some []) text h = cc
described-not_blank (some (first ∷ rest)) text h = describe-not_blank first text h

-- The admin panel's text for a failed request is never blank if the fallback is not, and it is the
-- description of the first validation error whenever that error has one.
api_error_message-not_blank :
    (body : Option ErrorData) (message fallback : String)
    → is_blank fallback ≡ false
    → let text = api_error_message (axios_error body message) fallback in
      (is_blank text ≡ false)
      × ((described (errors_of body) ≡ none) ⊎ (described (errors_of body) ≡ some text))
unfolding api_error_message
api_error_message-not_blank body message fallback h =
    description_or-not_blank (described (errors_of body)) _ (described-not_blank (errors_of body))
      (or_else-not_blank (message_of body) _ (or_else-not_blank message fallback h))
