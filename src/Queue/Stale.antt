-- ===== src/Queue/Stale.antt =====
-- Two facts on replays (client-web/lib/offline-queue.ts): a loop whose rows were read before another
-- loop ran posts them again, and the order of a replay is that of the random keys.
use hr_profi_uz.Queue.Account.{never, dequeue-fine}
use hr_profi_uz.Common.{
  Bool, ◌≡◌, true, false, none, ◌⊎◌, List, some, ℕ, ◌∷◌, ◌∙◌, arith, ap, [], refl, ◌<◌, inl, inr,
}
use hr_profi_uz.Queue.Flush.{Body, flush_rows, Outcome, post_row, flush_row, flush_queue, counted}
use hr_profi_uz.Queue.Store.{
  bump_attempt, dequeue, Kind, enqueue_checkin, World, QueuedCheckin, list_queued, put, Capture,
  row_of,
}

-- The keys in front of `ks`, the last one first.
abbrev pub newest_first : {N : Type 0} → List (QueuedCheckin N) → List ℕ → List ℕ
newest_first [] ks = ks
newest_first (r ∷ rs) ks = newest_first rs (r.id ∷ ks)

two_puts :
    {N : Type 0} (r₁ r₂ : QueuedCheckin N) (rows : List (QueuedCheckin N))
    → rows ≡ []
    → r₂.id < r₁.id
    → put r₂ (put r₁ rows) ≡ r₂ ∷ r₁ ∷ []
unfolding put
two_puts r₁ r₂ [] e lt = ground arith
two_puts r₁ r₂ (x ∷ xs) e lt = cc

module _ {N S : Type 0} (post : Kind → Body N → S → Bool × S) where
  post_row-posted :
      (r : QueuedCheckin N) (w : World N S)
      → let (b, w') = post_row post r w in
        (w'.posted ≡ r.id ∷ w.posted) × ((b ≡ none) ⊎ (b ≡ some tt))
  unfolding post_row
  post_row-posted r w = ground arith

  dequeue-posted : (k : ℕ) (w : World N S) → (dequeue never k w).1.posted ≡ w.posted
  unfolding dequeue
  dequeue-posted k w = refl

  bump_attempt-posted :
      (k : ℕ) (w : World N S)
      → let (b, w') = bump_attempt never k w in (b ≡ some tt) × (w'.posted ≡ w.posted)
  unfolding bump_attempt
  bump_attempt-posted k w = ground arith

  flush_row-posted :
      (r : QueuedCheckin N) (w : World N S)
      → let (b, w') = flush_row never post r w in
        (w'.posted ≡ r.id ∷ w.posted) × ((b ≡ some true) ⊎ (b ≡ some false))
  unfolding flush_row
  flush_row-posted r w =
      let w1 = (post_row post r w).1 in
      ground (
        arith,
        post_row-posted r w,
        dequeue-fine post r.id w1,
        dequeue-posted r.id w1,
        bump_attempt-posted r.id w1,
      )

  flush_rows-posted :
      (rs : List (QueuedCheckin N)) (o : Outcome) (w : World N S)
      → (flush_rows never post rs o w).1.posted ≡ newest_first rs w.posted
  unfolding flush_rows
  flush_rows-posted [] o w = refl
  flush_rows-posted (r ∷ rs) o w =
      let w1 = (flush_row never post r w).1 in
      let (posted, settled) = flush_row-posted r w in
      let so_far = ap (newest_first rs) posted in
      elim settled [
        | inl e ↦ rw (e, flush_rows) (flush_rows-posted rs (counted true o) w1 ∙ so_far)
        | inr e ↦ rw (e, flush_rows) (flush_rows-posted rs (counted false o) w1 ∙ so_far)
      ]

  -- No transaction fails, and the server answers anything. If a second flush reads the rows before the
  -- loop of the first has run, and its own loop runs after it, every row is posted by each of
  -- the two loops, in the same order.
  pub stale_flush_posts_again :
      (o₁ o₂ : Outcome) (w : World N S)
      → let w₁ = (flush_rows never post w.rows o₁ w).1 in
        let w₂ = (flush_rows never post w.rows o₂ w₁).1 in
        w₂.posted ≡ newest_first w.rows (newest_first w.rows w.posted)
  stale_flush_posts_again o₁ o₂ w =
      flush_rows-posted w.rows o₂ _ ∙ ap (newest_first w.rows) (flush_rows-posted w.rows o₁ w)

  -- No transaction fails, and the server answers anything. Two captures queued one after the other in an
  -- empty store are posted in the order of their random keys: the later one first if its key is the
  -- smaller.
  replay_order_is_key_order :
      (uuid₁ uuid₂ : ℕ) (c₁ c₂ : Capture N) (w : World N S)
      → w.rows ≡ []
      → uuid₂ < uuid₁
      → let w₁ = (enqueue_checkin never uuid₁ c₁ w).1 in
        let w₂ = (enqueue_checkin never uuid₂ c₂ w₁).1 in
        (flush_queue never post w₂).1.posted ≡ uuid₁ ∷ uuid₂ ∷ w.posted
  unfolding enqueue_checkin flush_queue list_queued
  replay_order_is_key_order uuid₁ uuid₂ c₁ c₂ w h lt =
      rw (two_puts (row_of uuid₁ c₁) (row_of uuid₂ c₂) w.rows h lt) (flush_rows-posted _ _ _)
