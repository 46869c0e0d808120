-- ===== src/Notifications/Store.antt =====
-- `useNotificationsStore` (admin-web/src/stores/notifications.ts). `P` is the type of payloads, which are
-- only kept; a category is its text; `now` is the text of the clock.
use hr_profi_uz.Common.{
  String, Option, List, Bool, ◌+◌, ◌===◌, none, ℕ, if◌then◌else◌, some, map, is_some, is_blank,
  true, false, ◌&&◌, ◌-◌, take, not, find_by, ◌∷◌,
}

pub record AppNotification (P : Type 0) : Type 0 where
  pub id : String
  pub company_id : Option String
  pub user_id : String
  pub category : String
  pub title : String
  pub body : Option String
  pub payload : Option P
  pub is_read : Bool
  pub read_at : Option String
  pub created_at : String

pub record NotificationsState (P : Type 0) : Type 0 where
  pub items : List (AppNotification P)
  pub unread : ℕ
  pub loading : Bool

-- The argument of `pushIncoming`.
pub record Incoming : Type 0 where
  pub id : Option String
  pub title : Option String
  pub body : Option String
  pub category : Option String

abbrev pub or_default : String → Option String → String
or_default d none = d
or_default d (some s) = s

-- `Math.max(0, unread - (found ? 1 : 0))`
abbrev pub drop_one : Bool → ℕ → ℕ
drop_one found unread = if found then unread - 1 else unread

module _ {P : Type 0} where
  -- `fetch` up to its `await`: whether the two requests are made.
  unfoldable pub fetch_start : NotificationsState P → NotificationsState P × Bool
  fetch_start s = if s.loading then (s, false) else (record s { loading = true }, true)

  -- The rest of `fetch`: the list and the count that the server sent, or the `catch`.
  unfoldable pub fetch_end :
      Option (List (AppNotification P) × ℕ) → NotificationsState P → NotificationsState P
  fetch_end none s = record s { loading = false }
  fetch_end (some (items, count)) s = record { items = items; unread = count; loading = false }

  abbrev pub is_unread : String → AppNotification P → Bool
  is_unread id n = n.id === id && not n.is_read

  abbrev pub read_now : String → AppNotification P → AppNotification P
  read_now now n = record n { is_read = true; read_at = some now }

  abbrev pub read_one : String → String → AppNotification P → AppNotification P
  read_one now id n = if n.id === id then read_now now n else n

  -- The `set` of `markRead`, which runs whether or not its request failed.
  unfoldable pub mark_read : String → String → NotificationsState P → NotificationsState P
  mark_read now id s = record s {
    items = map (read_one now id) s.items;
    unread = drop_one (is_some (find_by (is_unread id) s.items)) s.unread;
  }

  -- `markAllRead`; `posted` says that its request succeeded.
  unfoldable pub mark_all_read : Bool → String → NotificationsState P → NotificationsState P
  mark_all_read posted now s =
      if posted then record s { items = map (read_now now) s.items; unread = 0 } else s

  abbrev pub synthetic : String → String → Incoming → AppNotification P
  synthetic now id e = record {
    id = id;
    company_id = none;
    user_id = "";
    category = or_default "SYSTEM" e.category;
    title = or_default "Notification" e.title;
    body = e.body;
    payload = none;
    is_read = false;
    read_at = none;
    created_at = now;
  }

  -- `slice(0, 50)`
  unfoldable pub first_50 : List (AppNotification P) → List (AppNotification P)
  first_50 xs = take 50 xs

  -- The items of `pushIncoming`: with an id that is not blank, one more in front, 50 at most.
  unfoldable pub push_items :
      String → Incoming → List (AppNotification P) → List (AppNotification P)
  push_items now e items = elim e.id [
    | none ↦ items
    | some id ↦ if is_blank id then items else first_50 (synthetic now id e ∷ items)
  ]

  unfoldable pub push_incoming : String → Incoming → NotificationsState P → NotificationsState P
  unfolding push_items
  push_incoming now e s = record s { unread = s.unread + 1; items = push_items now e s.items }
