-- ===== src/Api/Message.antt =====
-- The texts of errors: `describeValidationError` and `apiErrorMessage` of admin-web/src/lib/api.ts,
-- and `apiErrorMessage` of mobile/src/api/client.ts, kiosk-web/src/lib/api.ts and client-web/lib/api.ts.
-- A part of a location and a limit are given as the text that the source prints for them.
use hr_profi_uz.Common.{
  List, Option, String, some, if◌then◌else◌, ◌∷◌, [], is_blank, none, ◌===◌, ◌||◌,
}
use Prim.Native.String

-- `ValidationDetail`; `ctx` is read at two keys.
pub record ValidationDetail : Type 0 where
  pub kind : String  -- `type`
  pub loc : Option (List String)
  pub msg : String
  pub min_length : Option String
  pub max_length : Option String

-- `error.response?.data`
pub record ErrorData : Type 0 where
  pub message : Option String
  pub detail : Option String
  pub errors : Option (List ValidationDetail)

pub data Thrown : Type 0 where
  axios_error : Option ErrorData → (message : String) → Thrown
  js_error : (message : String) → Thrown
  other : Thrown

-- `a || b`
abbrev pub or_else : String → String → String
or_else a b = if is_blank a then b else a

abbrev pub text_of : Option String → String
text_of none = ""
text_of (some s) = s

infixr 65 ◌+++◌
abbrev pub ◌+++◌ : String → String → String
a +++ b = String.◌++◌ a b

unfoldable pub join_dots : List String → String
join_dots [] = ""
join_dots (x ∷ []) = x
join_dots (x ∷ y ∷ xs) = x +++ ("." +++ join_dots (y ∷ xs))

abbrev pub tail_of : List String → List String
tail_of [] = []
tail_of (x ∷ xs) = xs

-- `fieldLabel`
unfoldable pub label_from : Option (List String) → String
unfolding join_dots
label_from none = "value"
label_from (some loc) = or_else (join_dots (tail_of loc)) "value"

abbrev pub limit_text : String → Option String → String → String
limit_text word none msg = msg
limit_text word (some n) msg = word +++ (n +++ " chars")

unfoldable pub describe_validation_error : ValidationDetail → Option String
unfolding label_from
describe_validation_error d =
    let label = label_from d.loc in
    if d.kind === "string_too_short"
    then some (label +++ (": " +++ limit_text "min " d.min_length d.msg))
    else if d.kind === "string_too_long"
    then some (label +++ (": " +++ limit_text "max " d.max_length d.msg))
    else if d.kind === "missing"
    then some (label +++ ": required")
    else if d.kind === "value_error" || d.kind === "type_error"
    then some (label +++ (": " +++ d.msg))
    else if is_blank d.msg
    then none
    else some (label +++ (": " +++ d.msg))

-- The first validation error that can be described.
abbrev pub described : Option (List ValidationDetail) → Option String
described none = none
described (some []) = none
described (some (first ∷ rest)) = describe_validation_error first

abbrev pub message_of : Option ErrorData → String
message_of none = ""
message_of (some e) = text_of e.message

abbrev pub errors_of : Option ErrorData → Option (List ValidationDetail)
errors_of none = none
errors_of (some e) = e.errors

abbrev pub description_or : Option String → String → String
description_or none plain = plain
description_or (some text) plain = or_else text plain

-- `apiErrorMessage` of the admin panel; an empty description counts as none.
unfoldable pub api_error_message : Thrown → String → String
unfolding describe_validation_error
api_error_message (axios_error body message) fallback =
    description_or (described (errors_of body))
      (or_else (message_of body) (or_else message fallback))
api_error_message (js_error message) fallback = message
api_error_message other fallback = fallback

-- `apiErrorMessage` of the mobile app and of the kiosk.
unfoldable pub plain_error_message : Thrown → String → String
plain_error_message (axios_error body message) fallback =
    or_else (message_of body) (or_else message fallback)
plain_error_message (js_error message) fallback = message
plain_error_message other fallback = fallback

abbrev pub detail_of : Option ErrorData → String
detail_of none = ""
detail_of (some e) = text_of e.detail

-- `apiErrorMessage` of the employee app.
unfoldable pub pwa_error_message : Thrown → String
pwa_error_message (axios_error body message) =
    or_else (message_of body) (or_else (detail_of body) (or_else message "Request failed"))
pwa_error_message (js_error message) = message
pwa_error_message other = "Request failed"
