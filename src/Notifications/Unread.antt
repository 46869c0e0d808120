-- ===== src/Notifications/Unread.antt =====
-- The unread count (admin-web/src/stores/notifications.ts).
use hr_profi_uz.Notifications.Store.{
  fetch_end, push_items, NotificationsState, mark_read, mark_all_read, Incoming, AppNotification,
  push_incoming, read_one, is_unread, synthetic, read_now, first_50,
}
use hr_profi_uz.Common.{
  List, String, Option, some, ℕ, ◌≡◌, ◌≤◌, arith, map, Bool, ◌-◌, length, take, find_by, count_by,
  ◌+◌, if◌then◌else◌, suc, not, Option-cases, none, is_some, ◌∷◌, [], zero, ap, inl, refl, inr,
}

pub data Event (P : Type 0) : Type 0 where
  fetched : Option (List (AppNotification P) × ℕ) → Event P
  read : (now id : String) → Event P
  all_read : (posted : Bool) → (now : String) → Event P
  incoming : (now : String) → Incoming → Event P

module _ {P : Type 0} where
  -- The unread ones among some notifications.
  abbrev pub unread_in : List (AppNotification P) → ℕ
  unread_in items = count_by (λ n. not n.is_read) items

  -- The count covers the unread items that the store holds, of which there are 50 at most.
  pub record IsConsistent (s : NotificationsState P) : Type 0 where
    pub covered : unread_in s.items ≤ s.unread
    pub short : length s.items ≤ 50

  unfoldable pub step : Event P → NotificationsState P → NotificationsState P
  unfolding fetch_end mark_read mark_all_read push_incoming
  step (fetched answer) s = fetch_end answer s
  step (read now id) s = mark_read now id s
  step (all_read posted now) s = mark_all_read posted now s
  step (incoming now e) s = push_incoming now e s

  -- What the server's answer to a fetch of 50 keeps: its page is short, and its count covers it.
  abbrev pub IsFair : Event P → Type 0
  IsFair (fetched (some (items, count))) = (unread_in items ≤ count) × (length items ≤ 50)
  IsFair (fetched none) = Unit
  IsFair (read now id) = Unit
  IsFair (all_read posted now) = Unit
  IsFair (incoming now e) = Unit

  length-take : (n : ℕ) (xs : List (AppNotification P)) → length (take n xs) ≤ n
  length-take zero xs = omega arith
  length-take (suc n) [] = omega arith
  length-take (suc n) (x ∷ xs) = omega (arith, length-take n xs)

  unread_in-take : (n : ℕ) (xs : List (AppNotification P)) → unread_in (take n xs) ≤ unread_in xs
  unread_in-take zero xs = omega arith
  unread_in-take (suc n) [] = omega arith
  unread_in-take (suc n) (x ∷ xs) = ground (arith, unread_in-take n xs)

  length-map_read :
      (now id : String) (xs : List (AppNotification P))
      → length (map (read_one now id) xs) ≡ length xs
  length-map_read now id [] = refl
  length-map_read now id (x ∷ xs) = ap suc (length-map_read now id xs)

  -- Marking reads at least one unread item, if there is one with the id, and never makes one unread.
  unread_in-map_read :
      (now id : String) (xs : List (AppNotification P))
      → unread_in (map (read_one now id) xs)
          + (if is_some (find_by (is_unread id) xs) then 1 else 0)
        ≤ unread_in xs
  unread_in-map_read now id [] = ground arith
  unread_in-map_read now id (x ∷ xs) = ground (arith, unread_in-map_read now id xs)

  none_unread-map_read :
      (now id : String) (xs : List (AppNotification P))
      → find_by (is_unread id) (map (read_one now id) xs) ≡ none
  none_unread-map_read now id [] = refl
  none_unread-map_read now id (x ∷ xs) = ground (arith, none_unread-map_read now id xs)

  all_read-none :
      (now : String) (xs : List (AppNotification P))
      → let ys = map (read_now now) xs in (unread_in ys ≡ 0) × (length ys ≡ length xs)
  all_read-none now [] = (refl, refl)
  all_read-none now (x ∷ xs) = ground (arith, all_read-none now xs)

  first_50-bounds :
      (xs : List (AppNotification P))
      → (unread_in (first_50 xs) ≤ unread_in xs) × (length (first_50 xs) ≤ 50)
  unfolding first_50
  first_50-bounds xs = (unread_in-take 50 xs, length-take 50 xs)

  push_items-IsConsistent :
      (now : String) (e : Incoming) (items : List (AppNotification P)) (unread : ℕ)
      → unread_in items ≤ unread
      → length items ≤ 50
      → (unread_in (push_items now e items) ≤ unread + 1) × (length (push_items now e items) ≤ 50)
  unfolding push_items
  push_items-IsConsistent now e items unread h k = elim (Option-cases e.id) [
    | inl missing ↦ ground arith
    | inr (id, found) ↦ ground (arith, first_50-bounds (synthetic now id e ∷ items))
  ]

  -- Every operation keeps the unread count at least the number of unread items that the store holds, and
  -- the items 50 at most, as long as the server's answers to `fetch` are so.
  pub step-IsConsistent :
      (e : Event P) (s : NotificationsState P) → IsFair e → IsConsistent s → IsConsistent (step e s)
  unfolding step
  step-IsConsistent (fetched none) s f v = ground arith
  step-IsConsistent (fetched (some (items, count))) s f v = ground arith
  step-IsConsistent (read now id) s f v =
      ground (arith, unread_in-map_read now id s.items, length-map_read now id s.items)
  step-IsConsistent (all_read posted now) s f v = ground (arith, all_read-none now s.items)
  step-IsConsistent (incoming now e) s f v =
      ground (arith, push_items-IsConsistent now e s.items s.unread v.covered v.short)

  -- Marking a notification as read lowers the unread count by one exactly if the store holds it unread and
  -- the count is not 0; afterwards it holds no unread item with that id, and marking it again, at any
  -- time, leaves the count alone.
  mark_read_once :
      (now later id : String) (s : NotificationsState P)
      → let t = mark_read now id s in
        (t.unread ≡ s.unread - (if is_some (find_by (is_unread id) s.items) then 1 else 0))
        × (find_by (is_unread id) t.items ≡ none)
        × ((mark_read later id t).unread ≡ t.unread)
  unfolding mark_read
  mark_read_once now later id s = ground (arith, none_unread-map_read now id s.items)
