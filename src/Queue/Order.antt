-- ===== src/Queue/Order.antt =====
-- The store keeps its rows by ascending key, and a flush replays them in that order
-- (client-web/lib/offline-queue.ts).
use hr_profi_uz.Common.{
  List, ℕ, ◌<◌, ◌≡◌, if◌then◌else◌, All, ◌==◌, some, ◌⊎◌, none, ◌∷◌, [], arith, refl, inl, inr,
}
use hr_profi_uz.Queue.Store.{
  Fault, commits, refused, lost, get, put, QueuedCheckin, enqueue_checkin, Capture, World, row_of,
}

module _ {N : Type 0} where
  abbrev pub IsAscending : List (QueuedCheckin N) → Type 0
  IsAscending [] = Unit
  IsAscending (x ∷ xs) = All (λ y. x.id < y.id) xs × IsAscending xs

  All-put :
      (k : ℕ) (r : QueuedCheckin N) (xs : List (QueuedCheckin N))
      → k < r.id
      → All (λ y. k < y.id) xs
      → All (λ y. k < y.id) (put r xs)
  unfolding put
  All-put k r [] h hs = (h, tt)
  All-put k r (x ∷ xs) h (p, ps) = ground (arith, All-put k r xs h ps)

  All-lt :
      (j k : ℕ) (xs : List (QueuedCheckin N))
      → j < k
      → All (λ y. k < y.id) xs
      → All (λ y. j < y.id) xs
  All-lt j k [] h hs = tt
  All-lt j k (x ∷ xs) h (p, ps) = (omega arith, All-lt j k xs h ps)

  put-IsAscending :
      (r : QueuedCheckin N) (xs : List (QueuedCheckin N)) → IsAscending xs → IsAscending (put r xs)
  unfolding put
  put-IsAscending r [] h = (tt, tt)
  put-IsAscending r (x ∷ xs) (p, h) =
      ground (arith, All-put x.id r xs, put-IsAscending r xs h, All-lt r.id x.id xs)

  pub get-put :
      (k : ℕ) (r : QueuedCheckin N) (xs : List (QueuedCheckin N))
      → get k (put r xs) ≡ (if r.id == k then some r else get k xs)
  unfolding get put
  get-put k r [] = refl
  get-put k r (x ∷ xs) = ground (arith, get-put k r xs)

pub Fault-cases : (x : Fault) → (x ≡ commits) ⊎ ((x ≡ refused) ⊎ (x ≡ lost))
Fault-cases commits = inl refl
Fault-cases refused = inr (inl refl)
Fault-cases lost = inr (inr refl)

module _ {N S : Type 0} (faults : ℕ → Fault) where
  -- Enqueueing a capture keeps the rows in the order of their keys. If its transaction commits, it stores
  -- the capture under the new key with no attempt counted, leaves the row of every other key as it was and
  -- returns the stored row; if it is refused, the call is rejected and the rows stay; if it is lost, the
  -- call returns the row and the rows stay.
  enqueue_checkin-get :
      (uuid k : ℕ) (c : Capture N) (w : World N S)
      → IsAscending w.rows
      → let (b, w') = enqueue_checkin faults uuid c w in
        IsAscending w'.rows
        × (((faults w.begun ≡ commits)
              × (b ≡ some (row_of uuid c))
              × (get k w'.rows ≡ (if uuid == k then some (row_of uuid c) else get k w.rows)))
            ⊎ (((faults w.begun ≡ refused) × (b ≡ none) × (w'.rows ≡ w.rows))
                ⊎ ((faults w.begun ≡ lost) × (b ≡ some (row_of uuid c)) × (w'.rows ≡ w.rows))))
  unfolding enqueue_checkin
  enqueue_checkin-get uuid k c w h =
      ground (arith, put-IsAscending (row_of uuid c) w.rows h, get-put k (row_of uuid c) w.rows)
