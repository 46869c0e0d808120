-- ===== src/Notifications/Legacy.antt =====
-- The translation of the texts of notifications: admin-web/src/lib/notifications-i18n.ts. A text is the
-- list of its code units, and a literal text is written in quotes. `t` is the translation function
-- with its arguments, which are texts.
use hr_profi_uz.Common.{
  Bool, Option, ℕ, String, leb, none, some, true, ◌==◌, ◌∷◌, ◌&&◌, ◌||◌, not, if◌then◌else◌, [],
  List, ◌++◌,
}
use hr_profi_uz.Slugs.Text.{Text, same}
use Prim.Native.Char.{code}
use Prim.Native.String.{[] as empty_text, ◌∷◌ as ◌∷ˢ◌}

-- The code units of a literal text.
abbrev pub codes : String → Text
codes empty_text = []
codes (c ∷ˢ s) = code c ∷ codes s

-- The line ends, which `.` does not match.
abbrev pub is_line_end : ℕ → Bool
is_line_end c = (c == 10 || c == 13) || (c == 8232 || c == 8233)

-- `\s`
abbrev pub is_space : ℕ → Bool
is_space c =
    ((leb 9 c && leb c 13) || (c == 32 || c == 160))
    || ((c == 5760 || (leb 8192 c && leb c 8202))
        || ((c == 8232 || c == 8233) || (c == 8239 || (c == 8287 || (c == 12288 || c == 65279)))))

-- `.*` up to the end of the text
abbrev pub is_line : Text → Bool
is_line [] = true
is_line (c ∷ cs) = not (is_line_end c) && is_line cs

-- The text after a literal at its start.
unfoldable pub after : Text → Text → Option Text
after [] raw = some raw
after (p ∷ ps) [] = none
after (p ∷ ps) (c ∷ cs) = let rest = after ps cs in if p == c then rest else none

-- `\s*(.+)$`: the spaces are skipped; if there is nothing else, the last of them is the group, unless
-- it ends a line.
unfoldable pub rest_group : Text → Option Text
rest_group [] = none
rest_group (c ∷ cs) =
    let later = rest_group cs in
    if is_space c
    then elim cs [ [] ↦ if is_line_end c then none else some (c ∷ []) | _ ∷ _ ↦ later ]
    else (if is_line (c ∷ cs) then some (c ∷ cs) else none)

abbrev longer_by : ℕ → Option Text → Option Text
longer_by c none = none
longer_by c (some group) = some (c ∷ group)

-- `(.+?)` up to one of the endings
unfoldable pub lazy_group : (Text → Bool) → Text → Option Text
lazy_group ends [] = none
lazy_group ends (c ∷ cs) =
    let longer = lazy_group ends cs in
    if is_line_end c then none else (if ends cs then some (c ∷ []) else longer_by c longer)

-- `phrase\.?$`
abbrev pub ends_with : String → Text → Bool
ends_with phrase cs = same cs (codes phrase) || same cs (codes phrase ++ b'.' ∷ [])

-- `^phrase\s*(.+)$`
abbrev pub starts : String → Text → Option Text
starts phrase raw = elim (after (codes phrase) raw) [ none ↦ none | some rest ↦ rest_group rest ]

pub data Field : Type 0 where
  title body : Field

abbrev pub or_else : Option Text → Option Text → Option Text
or_else none b = b
or_else (some a) b = some a

-- What the code reads of a payload; a key that is no text is `none`.
pub record Payload : Type 0 where
  pub title_key : Option Text
  pub body_key : Option Text
  pub t_args : List (String × Text)

abbrev pub key_of : Field → Option Payload → Option Text
key_of field none = none
key_of title (some p) = p.title_key
key_of body (some p) = p.body_key

abbrev pub args_of : Option Payload → List (String × Text)
args_of none = []
args_of (some p) = p.t_args

-- `||` on texts, where the empty one is falsy
abbrev pub or_text : Option Text → Text → Text
or_text none fallback = fallback
or_text (some []) fallback = fallback
or_text (some (c ∷ cs)) fallback = c ∷ cs

abbrev pub text_or_nil : Option Text → Text
text_or_nil none = []
text_or_nil (some raw) = raw

module _ (t : Text → List (String × Text) → Text) where
  abbrev pub group_text : String → String → Option Text → Option Text
  group_text key arg none = none
  group_text key arg (some m) = some (t (codes key) ((arg, m) ∷ []))

  abbrev pub title_pattern : Text → Option Text
  title_pattern raw =
      if same raw (codes "Out-of-geofence check-in")
      then some (t (codes "anomaly.geofence_in.title") [])
      else (if same raw (codes "Out-of-geofence check-out")
          then some (t (codes "anomaly.geofence_out.title") [])
          else or_else
              (group_text "anomaly.device_offline.title" "name" (starts "Device offline:" raw))
              (or_else
                (group_text "leave.new_request.title" "name" (starts "New leave request:" raw))
                (group_text "anomaly.suspicious_face.title" "code"
                  (starts "Suspicious face match:" raw))))

  abbrev pub body_pattern : Text → Option Text
  body_pattern raw =
      or_else
        (group_text "anomaly.geofence_in.body" "name"
          (lazy_group (ends_with " checked in outside the branch radius") raw))
        (or_else
          (group_text "anomaly.geofence_out.body" "name"
            (lazy_group (ends_with " checked out outside the branch radius") raw))
          (group_text "anomaly.device_offline.body" "last_seen" (starts "Last seen at" raw)))

  -- `matchLegacyPattern`
  unfoldable pub match_legacy_pattern : Text → Field → Option Text
  match_legacy_pattern [] field = none
  match_legacy_pattern (c ∷ cs) title = title_pattern (c ∷ cs)
  match_legacy_pattern (c ∷ cs) body = body_pattern (c ∷ cs)

  -- The part of a key: the translation, unless it is the key itself.
  abbrev pub modern : Option Text → List (String × Text) → Option Text
  modern none args = none
  modern (some []) args = none
  modern (some (k ∷ ks)) args =
      if same (t (k ∷ ks) args) (k ∷ ks) then none else some (t (k ∷ ks) args)

  -- `translateNotification`
  unfoldable pub translate_notification : Option Text → Option Payload → Field → Text
  unfolding match_legacy_pattern
  translate_notification fallback payload field =
      elim (modern (key_of field payload) (args_of payload)) [
        | some translated ↦ translated
        | none ↦ or_text (match_legacy_pattern (text_or_nil fallback) field) (text_or_nil fallback)
      ]
