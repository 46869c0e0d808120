-- ===== src/Queue/Tests.antt =====
-- The queue's theorems at a concrete store, and runs. The server's state is the number of its requests.
use hr_profi_uz.Queue.NoLoss.{has, flush_queue-no_loss}
use hr_profi_uz.Queue.Stale.{newest_first, stale_flush_posts_again}
use hr_profi_uz.Queue.Account.{never, flush_queue-accounts}
use hr_profi_uz.Common.{
  List, ℕ, Option, Bool, ◌≡◌, true, ◌==◌, some, ◌∷◌, none, [], ◌+◌, ◌⊎◌, false, refl, if◌then◌else◌,
  arith, length,
}
use hr_profi_uz.Queue.Flush.{flush_rows, Outcome, flush_queue, Body, flush_row, post_row}
use hr_profi_uz.Queue.Store.{
  Fault, commits, refused, lost, World, get, Capture, Kind, kind_in, row_of, kind_out,
  QueuedCheckin, enqueue_checkin, list_queued, dequeue, bump_attempt, delete,
}
use hr_profi_uz.Queue.Submit.{
  capture_of, submit, Unreached, is_network_error, PostError, axios_error, recorded, queued, thrown,
  submit_outcomes,
}

abbrev morning : Capture ℕ
morning = record {
  kind = kind_in;
  captured_at = "2025-05-03T08:00:00Z";
  latitude = some 41;
  longitude = some 69;
  accuracy_m = none;
  selfie_base64 = "AA";
}

abbrev evening : Capture ℕ
evening = record morning { kind = kind_out; captured_at = "2025-05-03T17:00:00Z" }

abbrev world : List (QueuedCheckin ℕ) → World ℕ ℕ
world rows = record { server = 0; rows = rows; begun = 0; posted = []; accepted = [] }

abbrev both : World ℕ ℕ
both = world (row_of 3 evening ∷ row_of 8 morning ∷ [])

-- The server refuses check-outs.
abbrev no_out : Kind → Body ℕ → ℕ → Bool × ℕ
no_out kind_in body n = (true, n + 1)
no_out kind_out body n = (false, n + 1)

-- The second transaction is aborted at its commit.
abbrev second : ℕ → Fault
second n = if n == 1 then lost else commits

evening_stays : get 3 (flush_queue never no_out both).1.rows ≡ some (row_of 3 evening)
unfolding flush_queue flush_rows flush_row post_row list_queued dequeue bump_attempt delete get
evening_stays = refl

evening_was : get 3 both.rows ≡ some (row_of 3 evening)
unfolding get
evening_was = refl

flush_queue-no_loss_example :
    let w' = (flush_queue second no_out both).1 in
    (get 3 w'.rows ≡ some (row_of 3 evening)) ⊎ (has 3 w'.accepted ≡ true)
flush_queue-no_loss_example =
    flush_queue-no_loss second no_out 3 (row_of 3 evening) both evening_was

flush_queue-accounts_example :
    (o : Outcome) × (let (b, w') = flush_queue never no_out both in
      (b ≡ some o)
      × (o.ok + o.failed ≡ 2)
      × (length w'.rows ≡ o.failed)
      × (length w'.accepted ≡ 0 + o.ok))
flush_queue-accounts_example = flush_queue-accounts no_out both (omega arith)

stale_flush_posts_again_example :
    let none_yet : Outcome = record { ok = 0; failed = 0 } in
    let w₁ = (flush_rows never no_out both.rows none_yet both).1 in
    let w₂ = (flush_rows never no_out both.rows none_yet w₁).1 in
    w₂.posted ≡ newest_first both.rows (8 ∷ 3 ∷ [])
stale_flush_posts_again_example =
    stale_flush_posts_again no_out (record { ok = 0; failed = 0 }) (record { ok = 0; failed = 0 })
      both

-- The request never reaches the server.
abbrev unreachable : Kind → Capture ℕ → ℕ → Option PostError × ℕ
unreachable kind c n = (some (axios_error (some "ERR_NETWORK") false), n)

submit_outcomes_example :
    let c = capture_of kind_in "now" none "AA" in
    let (error, server') = unreachable kind_in c 0 in
    let (b, w') = submit second unreachable kind_in "AA" none "now" true 4 both in
    let row = row_of 4 c in
    (w'.server ≡ server')
    × (((error ≡ none) × (b ≡ some recorded) × (w'.rows ≡ both.rows))
        ⊎ ((e : PostError) × (error ≡ some e)
            × (((¬ Unreached e) × (true ≡ true) × (b ≡ some (thrown e)) × (w'.rows ≡ both.rows))
                ⊎ ((Unreached e ⊎ (true ≡ false))
                    × (((second 0 ≡ refused) × (b ≡ none) × (w'.rows ≡ both.rows))
                        ⊎ (((second 0 ≡ lost) × (b ≡ some queued) × (w'.rows ≡ both.rows))
                            ⊎ ((second 0 ≡ commits)
                                × (b ≡ some queued)
                                × (get 4 w'.rows
                                    ≡ (if 4 == 4 then some row else get 4 both.rows)))))))))
submit_outcomes_example = submit_outcomes second unreachable kind_in "AA" "now" none true 4 4 both

flush_fails_once : (flush_queue never no_out both).0 ≡ some (record { ok = 1; failed = 1 })
unfolding flush_queue flush_rows flush_row post_row list_queued dequeue bump_attempt delete get
flush_fails_once = refl

offline_is_queued : (submit never unreachable kind_in "AA" none "now" true 4 both).0 ≡ some queued
unfolding submit is_network_error enqueue_checkin
offline_is_queued = refl

-- The first transaction is aborted at its commit: the check-in is reported as queued, and is not there.
queued_and_lost :
    let (b, w') = submit (λ n. lost) unreachable kind_in "AA" none "now" true 4 both in
    (b ≡ some queued) × (w'.rows ≡ both.rows)
unfolding submit is_network_error enqueue_checkin
queued_and_lost = (refl, refl)
