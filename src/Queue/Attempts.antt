-- ===== src/Queue/Attempts.antt =====
-- What a flush leaves in the store (client-web/lib/offline-queue.ts): rows go, and none is changed.
use hr_profi_uz.Queue.Flush.{Body, flush_row, flush_rows, Outcome, counted, post_row, flush_queue}
use hr_profi_uz.Common.{
  ℕ, Bool, List, ◌≡◌, if◌then◌else◌, some, arith, ◌==◌, none, ◌⊎◌, ◌∷◌, [], Option-cases, inl, inr,
}
use hr_profi_uz.Queue.Order.{Fault-cases}
use hr_profi_uz.Queue.Store.{
  Fault, get, delete, Kind, QueuedCheckin, World, bump_attempt, dequeue, list_queued,
}

module _ {N : Type 0} where
  pub get-delete :
      (k j : ℕ) (xs : List (QueuedCheckin N))
      → get k (delete j xs) ≡ (if j == k then none else get k xs)
  unfolding get delete
  get-delete k j [] = ground arith
  get-delete k j (x ∷ xs) = ground (arith, get-delete k j xs)

module _ {N S : Type 0} (faults : ℕ → Fault) (post : Kind → Body N → S → Bool × S) where
  pub post_row-cases :
      (r : QueuedCheckin N) (w : World N S)
      → let (b, w') = post_row post r w in
        (w'.rows ≡ w.rows)
        × (((b ≡ none) × (w'.accepted ≡ w.accepted))
            ⊎ ((b ≡ some tt) × (w'.accepted ≡ r.id ∷ w.accepted)))
  unfolding post_row
  post_row-cases r w = ground arith

  dequeue-cases :
      (k : ℕ) (w : World N S)
      → let (b, w') = dequeue faults k w in
        (w'.accepted ≡ w.accepted)
        × ((w'.rows ≡ w.rows) ⊎ ((b ≡ some tt) × (w'.rows ≡ delete k w.rows)))
  unfolding dequeue
  dequeue-cases k w = ground (arith, Fault-cases (faults w.begun))

  -- `bumpAttempt` changes no row, whether its transaction fails or not.
  pub bump_attempt-rows :
      (k : ℕ) (w : World N S)
      → let w' = (bump_attempt faults k w).1 in (w'.rows ≡ w.rows) × (w'.accepted ≡ w.accepted)
  unfolding bump_attempt
  bump_attempt-rows k w = ground (arith, Fault-cases (faults w.begun))

  -- The two ways in which a row can leave `flush_row`.
  pub flush_row-cases :
      (r : QueuedCheckin N) (w : World N S)
      → let w' = (flush_row faults post r w).1 in
        ((w'.rows ≡ w.rows) × ((w'.accepted ≡ w.accepted) ⊎ (w'.accepted ≡ r.id ∷ w.accepted)))
        ⊎ ((w'.rows ≡ delete r.id w.rows) × (w'.accepted ≡ r.id ∷ w.accepted))
  unfolding flush_row
  flush_row-cases r w =
      let w1 = (post_row post r w).1 in
      let w2 = (dequeue faults r.id w1).1 in
      ground (
        arith,
        post_row-cases r w,
        dequeue-cases r.id w1,
        bump_attempt-rows r.id w1,
        bump_attempt-rows r.id w2,
      )

  row-kept :
      (k : ℕ) (row r : QueuedCheckin N) (w : World N S)
      → get k (flush_row faults post r w).1.rows ≡ some row
      → get k w.rows ≡ some row
  row-kept k row r w h = ground (arith, flush_row-cases r w, get-delete k r.id w.rows)

  flush_rows-unchanged :
      (rs : List (QueuedCheckin N)) (o : Outcome) (k : ℕ) (row : QueuedCheckin N) (w : World N S)
      → get k (flush_rows faults post rs o w).1.rows ≡ some row
      → get k w.rows ≡ some row
  unfolding flush_rows
  flush_rows-unchanged [] o k row w h = h
  flush_rows-unchanged (r ∷ rs) o k row w h = elim (Option-cases (flush_row faults post r w).0) [
    | inl rejected ↦ row-kept k row r w (rw (rejected, flush_rows) at h)
    | inr (done, e) ↦
        row-kept k row r w
          (flush_rows-unchanged rs (counted done o) k row _ (rw (e, flush_rows) at h))
  ]

  pub list_queued-cases :
      (w : World N S)
      → let (b, w') = list_queued faults w in
        (w'.rows ≡ w.rows) × (w'.accepted ≡ w.accepted) × ((b ≡ none) ⊎ (b ≡ some w.rows))
  unfolding list_queued
  list_queued-cases w = ground (arith, Fault-cases (faults w.begun))

  -- Whatever the server answers and whichever transactions fail, a row that a flush leaves in the store
  -- is the row that was there before, its number of attempts included.
  flush_queue-unchanged :
      (k : ℕ) (row : QueuedCheckin N) (w : World N S)
      → get k (flush_queue faults post w).1.rows ≡ some row
      → get k w.rows ≡ some row
  unfolding flush_queue
  flush_queue-unchanged k row w h =
      let w1 = (list_queued faults w).1 in
      ground (
        arith,
        list_queued-cases w,
        flush_rows-unchanged w.rows (record { ok = 0; failed = 0 }) k row w1,
      )
