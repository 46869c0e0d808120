-- ===== src/Queue/NoLoss.antt =====
-- No queued check-in is lost by a flush (client-web/lib/offline-queue.ts).
use hr_profi_uz.Queue.Attempts.{flush_row-cases, get-delete, list_queued-cases}
use hr_profi_uz.Queue.Flush.{Body, flush_rows, flush_queue, Outcome, flush_row, counted}
use hr_profi_uz.Queue.Store.{Fault, Kind, QueuedCheckin, list_queued, World, get}
use hr_profi_uz.Common.{
  ℕ, List, Bool, any, ◌==◌, arith, ◌≡◌, some, ◌⊎◌, true, ◌∷◌, Option-cases, inl, inr, [],
}

-- Whether a key is among the accepted ones.
abbrev pub has : ℕ → List ℕ → Bool
has k ks = any (λ j. j == k) ks

module _ {N S : Type 0} (faults : ℕ → Fault) (post : Kind → Body N → S → Bool × S) where
  -- The row stands in the store or its key is accepted.
  abbrev pub IsSafe : ℕ → QueuedCheckin N → World N S → Type 0
  IsSafe k row w = (get k w.rows ≡ some row) ⊎ (has k w.accepted ≡ true)

  flush_row-IsSafe :
      (k : ℕ) (row r : QueuedCheckin N) (w : World N S)
      → IsSafe k row w
      → IsSafe k row (flush_row faults post r w).1
  flush_row-IsSafe k row r w h =
      ground (arith, flush_row-cases faults post r w, get-delete k r.id w.rows)

  flush_rows-IsSafe :
      (rs : List (QueuedCheckin N)) (o : Outcome) (k : ℕ) (row : QueuedCheckin N) (w : World N S)
      → IsSafe k row w
      → IsSafe k row (flush_rows faults post rs o w).1
  unfolding flush_rows
  flush_rows-IsSafe [] o k row w h = h
  flush_rows-IsSafe (r ∷ rs) o k row w h =
      let kept = flush_row-IsSafe k row r w h in
      elim (Option-cases (flush_row faults post r w).0) [
        | inl rejected ↦ rw (rejected, flush_rows) kept
        | inr (done, e) ↦ rw (e, flush_rows) (flush_rows-IsSafe rs (counted done o) k row _ kept)
      ]

  -- Whatever the server answers and whichever transactions fail, also where the flush itself is rejected
  -- half-way: every row of the store is afterwards still there, unchanged, or the server has accepted it.
  pub flush_queue-no_loss :
      (k : ℕ) (row : QueuedCheckin N) (w : World N S)
      → get k w.rows ≡ some row
      → let w' = (flush_queue faults post w).1 in
        (get k w'.rows ≡ some row) ⊎ (has k w'.accepted ≡ true)
  unfolding flush_queue
  flush_queue-no_loss k row w h =
      let w1 = (list_queued faults w).1 in
      ground (
        arith,
        list_queued-cases faults post w,
        flush_rows-IsSafe w.rows (record { ok = 0; failed = 0 }) k row w1,
      )
