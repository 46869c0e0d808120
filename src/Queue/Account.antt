-- ===== src/Queue/Account.antt =====
-- What a flush reports (client-web/lib/offline-queue.ts), while the browser's store does not fail.
use hr_profi_uz.Queue.Attempts.{post_row-cases, bump_attempt-rows}
use hr_profi_uz.Queue.Order.{IsAscending}
use hr_profi_uz.Queue.Flush.{Body, flush_row, Outcome, post_row, flush_rows, flush_queue, counted}
use hr_profi_uz.Common.{
  List, ℕ, ◌≡◌, Bool, All, length, ◌∷◌, count_by, arith, ◌+◌, if◌then◌else◌, ◌==◌, false, ◌<◌, [],
  refl, some, true, ◌⊎◌, inl, ap, inr,
}
use hr_profi_uz.Queue.Store.{
  Fault, commits, Kind, QueuedCheckin, delete, World, dequeue, bump_attempt, list_queued,
}

abbrev pub never : ℕ → Fault
never n = commits

module _ {N : Type 0} where
  abbrev pub rows_with : ℕ → List (QueuedCheckin N) → ℕ
  rows_with k xs = count_by (λ x. x.id == k) xs

  length-delete :
      (k : ℕ) (xs : List (QueuedCheckin N)) → length (delete k xs) + rows_with k xs ≡ length xs
  unfolding delete
  length-delete k [] = refl
  length-delete k (x ∷ xs) = ground (arith, length-delete k xs)

  rows_with-delete :
      (j k : ℕ) (xs : List (QueuedCheckin N))
      → rows_with j (delete k xs) ≡ (if j == k then 0 else rows_with j xs)
  unfolding delete
  rows_with-delete j k [] = ground arith
  rows_with-delete j k (x ∷ xs) = ground (arith, rows_with-delete j k xs)

  -- The rows still to be replayed have their place in the store, each its own.
  abbrev Awaits : List (QueuedCheckin N) → List (QueuedCheckin N) → Type 0
  Awaits [] xs = Unit
  Awaits (r ∷ rs) xs = (rows_with r.id xs ≡ 1) × All (λ y. r.id < y.id) rs × Awaits rs xs

  Awaits-delete :
      (k : ℕ) (rs xs : List (QueuedCheckin N))
      → All (λ y. k < y.id) rs
      → Awaits rs xs
      → Awaits rs (delete k xs)
  Awaits-delete k [] xs h a = tt
  Awaits-delete k (r ∷ rs) xs (p, ps) (one, above, a) =
      (ground (arith, rows_with-delete r.id k xs), above, Awaits-delete k rs xs ps a)

  no_rows_with : (k : ℕ) (xs : List (QueuedCheckin N)) → All (λ y. k < y.id) xs → rows_with k xs ≡ 0
  no_rows_with k [] h = refl
  no_rows_with k (x ∷ xs) (p, ps) = ground (arith, no_rows_with k xs ps)

  Awaits-cons :
      (x : QueuedCheckin N) (rs xs : List (QueuedCheckin N))
      → All (λ y. x.id < y.id) rs
      → Awaits rs xs
      → Awaits rs (x ∷ xs)
  Awaits-cons x [] xs h a = tt
  Awaits-cons x (r ∷ rs) xs (p, ps) (one, above, a) =
      (ground arith, above, Awaits-cons x rs xs ps a)

  Awaits-self : (xs : List (QueuedCheckin N)) → IsAscending xs → Awaits xs xs
  Awaits-self [] h = tt
  Awaits-self (x ∷ xs) (p, h) =
      (ground (arith, no_rows_with x.id xs p), p, Awaits-cons x xs xs p (Awaits-self xs h))

module _ {N S : Type 0} (post : Kind → Body N → S → Bool × S) where
  pub dequeue-fine :
      (k : ℕ) (w : World N S)
      → let (b, w') = dequeue never k w in
        (b ≡ some tt) × (w'.rows ≡ delete k w.rows) × (w'.accepted ≡ w.accepted)
  unfolding dequeue
  dequeue-fine k w = ground arith

  bump_attempt-fine : (k : ℕ) (w : World N S) → (bump_attempt never k w).0 ≡ some tt
  unfolding bump_attempt
  bump_attempt-fine k w = ground arith

  flush_row-fine :
      (r : QueuedCheckin N) (w : World N S)
      → let (b, w') = flush_row never post r w in
        ((b ≡ some true) × (w'.rows ≡ delete r.id w.rows) × (w'.accepted ≡ r.id ∷ w.accepted))
        ⊎ ((b ≡ some false) × (w'.rows ≡ w.rows) × (w'.accepted ≡ w.accepted))
  unfolding flush_row
  flush_row-fine r w =
      let w1 = (post_row post r w).1 in
      ground (
        arith,
        post_row-cases never post r w,
        dequeue-fine r.id w1,
        bump_attempt-fine r.id w1,
        bump_attempt-rows never post r.id w1,
      )

  -- The counters account for the rows: `n` are replayed between `w` and `w'`.
  abbrev pub Account : ℕ → Outcome → World N S → Outcome → World N S → Type 0
  Account n o w o' w' =
      (o'.ok + o'.failed ≡ o.ok + o.failed + n)
      × (length w'.rows + o'.ok ≡ length w.rows + o.ok)
      × (length w'.accepted + o.ok ≡ length w.accepted + o'.ok)

  flush_rows-Account :
      (rs : List (QueuedCheckin N)) (o : Outcome) (w : World N S)
      → Awaits rs w.rows
      → (o' : Outcome) × ((flush_rows never post rs o w).0 ≡ some o')
        × Account (length rs) o w o' (flush_rows never post rs o w).1
  unfolding flush_rows
  flush_rows-Account [] o w a = (o, refl, ground arith)
  flush_rows-Account (r ∷ rs) o w (one, above, a) =
      let w1 = (flush_row never post r w).1 in
      elim (flush_row-fine r w) [
        | inl (e, gone, accepted) ↦
            let (o', found, account) =
              flush_rows-Account rs (counted true o) w1
                (rw gone (Awaits-delete r.id rs w.rows above a)) in
            (
              o',
              rw (e, flush_rows) found,
              rw (e, flush_rows)
                  (omega (
                    arith,
                    account,
                    length-delete r.id w.rows,
                    ap length gone,
                    ap length accepted,
                  )),
            )
        | inr (e, same, accepted) ↦
            let (o', found, account) = flush_rows-Account rs (counted false o) w1 (rw same a) in
            (
              o',
              rw (e, flush_rows) found,
              rw (e, flush_rows) (omega (arith, account, ap length same, ap length accepted)),
            )
      ]

  -- While no transaction fails, flushing a store in key order returns, whatever the server answers: the
  -- two counts add up to the number of queued rows, as many rows stay as failed, and the server has
  -- accepted as many more as the count of successes.
  pub flush_queue-accounts :
      (w : World N S)
      → IsAscending w.rows
      → (o : Outcome) × (let (b, w') = flush_queue never post w in
          (b ≡ some o)
          × (o.ok + o.failed ≡ length w.rows)
          × (length w'.rows ≡ o.failed)
          × (length w'.accepted ≡ length w.accepted + o.ok))
  unfolding flush_queue list_queued
  flush_queue-accounts w h =
      let (o, found, account) =
        flush_rows-Account w.rows (record { ok = 0; failed = 0 }) (record w { begun = w.begun + 1 })
          (Awaits-self w.rows h) in
      (o, (found, omega (arith, account), omega (arith, account), omega (arith, account)))
