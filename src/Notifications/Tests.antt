-- ===== src/Notifications/Tests.antt =====
-- The store's theorems at a concrete state.
use hr_profi_uz.Notifications.Historic.{old_bodies_found}
use hr_profi_uz.Slugs.Text.{Text}
use hr_profi_uz.Notifications.Legacy.{Field, codes, translate_notification}
use hr_profi_uz.Notifications.Unread.{IsConsistent, step, read, step-IsConsistent}
use hr_profi_uz.Common.{ℕ, ◌∷◌, false, none, [], arith, List, some, ◌≢◌, String, ◌++◌, ◌≡◌, refl}
use hr_profi_uz.Notifications.Store.{AppNotification, NotificationsState}

abbrev fresh : AppNotification ℕ
fresh = record {
  id = "n1";
  company_id = none;
  user_id = "u";
  category = "SYSTEM";
  title = "t";
  body = none;
  payload = none;
  is_read = false;
  read_at = none;
  created_at = "2025";
}

abbrev store : NotificationsState ℕ
store = record { items = fresh ∷ []; unread = 3; loading = false }

store-IsConsistent : IsConsistent store
store-IsConsistent = record { covered = omega arith; short = omega arith }

step-IsConsistent_example : IsConsistent (step (read "now" "n1") store)
step-IsConsistent_example = step-IsConsistent (read "now" "n1") store tt store-IsConsistent

-- A translation that shows its key and its arguments.
abbrev shown : Text → List (String × Text) → Text
shown key args = b':' ∷ key

shown_nonempty : (key : Text) (args : List (String × Text)) → shown key args ≢ []
shown_nonempty key args h = cc

aziza_nonempty : codes "Aziza" ≢ []
aziza_nonempty h = cc

old_bodies_found_example :
    let name = codes "Aziza" in
    (translate_notification shown
        (some (name ++ codes " checked in outside the branch radius."))
        none
        Field.body
      ≡ shown (codes "anomaly.geofence_in.body") (("name", name) ∷ []))
    × (translate_notification shown
          (some (name ++ codes " checked out outside the branch radius."))
          none
          Field.body
        ≡ shown (codes "anomaly.geofence_out.body") (("name", name) ∷ []))
old_bodies_found_example =
    old_bodies_found shown shown_nonempty (codes "Aziza") (aziza_nonempty, refl)
