-- ===== src/Notifications/Historic.antt =====
-- The old texts of the server are recognised (admin-web/src/lib/notifications-i18n.ts).
use hr_profi_uz.Common.{
  List, String, ◌++◌, ◌≡◌, some, ◌∷◌, [], refl, ℕ, length, ◌<◌, none, arith, false, length-append,
  ◌≢◌,
}
use hr_profi_uz.Slugs.Text.{Text, same}
use hr_profi_uz.Notifications.Legacy.{
  match_legacy_pattern, codes, title, body, after, lazy_group, ends_with, translate_notification,
  or_text, Field,
}
use hr_profi_uz.Notifications.Patterns.{
  IsName, IsFlush, rest_group-flush, lazy_group-append, lazy_group-none, ends_with-longer,
}

-- What comes before a phrase at the end makes the text too long for the phrase.
too_long :
    (phrase other : String) (c : ℕ) (s : Text)
    → length (codes phrase) < length (codes other)
    → ends_with phrase (c ∷ s ++ codes other) ≡ false
too_long phrase other c s h =
    ends_with-longer phrase (c ∷ s ++ codes other) (omega (arith, h, length-append s (codes other)))

found_in :
    (name : Text)
    → IsName name
    → lazy_group
        (ends_with " checked in outside the branch radius")
        (name ++ codes " checked in outside the branch radius.")
      ≡ some name
unfolding same
found_in name h =
    lazy_group-append (ends_with " checked in outside the branch radius") name
      (codes " checked in outside the branch radius.") h refl
      (λ c s.
        too_long " checked in outside the branch radius" " checked in outside the branch radius." c
          s (omega arith))

found_out :
    (name : Text)
    → IsName name
    → lazy_group
        (ends_with " checked out outside the branch radius")
        (name ++ codes " checked out outside the branch radius.")
      ≡ some name
unfolding same
found_out name h =
    lazy_group-append (ends_with " checked out outside the branch radius") name
      (codes " checked out outside the branch radius.") h refl
      (λ c s.
        too_long " checked out outside the branch radius" " checked out outside the branch radius."
          c s (omega arith))

-- The text of a check-out is none of a check-in.
no_in_out :
    (name : Text)
    → lazy_group
        (ends_with " checked in outside the branch radius")
        (name ++ codes " checked out outside the branch radius.")
      ≡ none
unfolding same lazy_group
no_in_out name =
    lazy_group-none (ends_with " checked in outside the branch radius") name
      (codes " checked out outside the branch radius.") refl refl
      (λ c s.
        too_long " checked in outside the branch radius" " checked out outside the branch radius." c
          s (omega arith))

or_text_lem : (found fallback : Text) → found ≢ [] → or_text (some found) fallback ≡ found
or_text_lem [] fallback h = elim (h refl) [ ]
or_text_lem (c ∷ cs) fallback h = refl

module _ (t : Text → List (String × Text) → Text)
    (t_shown : (key : Text) (args : List (String × Text)) → t key args ≢ []) where
  -- A text that is recognised is shown by its translation.
  translate_notification-found :
      (raw key : Text) (args : List (String × Text)) (field : Field)
      → match_legacy_pattern t raw field ≡ some (t key args)
      → translate_notification t (some raw) none field ≡ t key args
  unfolding translate_notification
  translate_notification-found raw key args title h =
      rw h (or_text_lem (t key args) raw (t_shown key args))
  translate_notification-found raw key args body h =
      rw h (or_text_lem (t key args) raw (t_shown key args))

  -- When no translation is blank, the title that the server wrote for a name which begins with no
  -- space and is on one line is translated, with exactly this name, also without a payload.
  old_titles_found :
      (name : Text)
      → IsFlush name
      → ((translate_notification t (some (codes "Device offline: " ++ name)) none title
            ≡ t (codes "anomaly.device_offline.title") (("name", name) ∷ []))
          × (translate_notification t (some (codes "New leave request: " ++ name)) none title
              ≡ t (codes "leave.new_request.title") (("name", name) ∷ [])))
        × (translate_notification t (some (codes "Suspicious face match: " ++ name)) none title
            ≡ t (codes "anomaly.suspicious_face.title") (("code", name) ∷ []))
  unfolding match_legacy_pattern after same
  old_titles_found name h =
      let found = rest_group-flush name h in
      (
        (
          translate_notification-found _ _ _ title (rw found refl),
          translate_notification-found _ _ _ title (rw found refl),
        ),
        translate_notification-found _ _ _ title (rw found refl),
      )

  -- When no translation is blank, the texts that the server wrote of a check-in and of a check-out
  -- outside the branch, for a name on one line, are translated with exactly this name, also without
  -- a payload.
  pub old_bodies_found :
      (name : Text)
      → IsName name
      → (translate_notification t
            (some (name ++ codes " checked in outside the branch radius."))
            none
            body
          ≡ t (codes "anomaly.geofence_in.body") (("name", name) ∷ []))
        × (translate_notification t
              (some (name ++ codes " checked out outside the branch radius."))
              none
              body
            ≡ t (codes "anomaly.geofence_out.body") (("name", name) ∷ []))
  unfolding match_legacy_pattern
  old_bodies_found [] h = elim (h.0 refl) [ ]
  old_bodies_found (c ∷ cs) h = (
    translate_notification-found _ _ _ body (rw (found_in (c ∷ cs) h) refl),
    translate_notification-found _ _ _ body (rw (no_in_out (c ∷ cs), found_out (c ∷ cs) h) refl),
  )
