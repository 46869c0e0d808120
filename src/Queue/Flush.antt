-- ===== src/Queue/Flush.antt =====
-- `flushQueue` of client-web/lib/offline-queue.ts.
use hr_profi_uz.Queue.Store.{
  Fault, ◌>>=◌, ◌>>◌, Kind, M, QueuedCheckin, dequeue, list_queued, bump_attempt, pure,
}
use Prim.Native.Nat.{ℕ}
use hr_profi_uz.Common.{
  Option, String, Bool, List, ◌+◌, true, some, if◌then◌else◌, false, ◌∷◌, none, [],
}

-- The body that `flushQueue` posts.
pub record Body (N : Type 0) : Type 0 where
  pub latitude : Option N
  pub longitude : Option N
  pub accuracy_m : Option N
  pub selfie_base64 : String
  pub captured_at : String

-- `{ ok, failed }`
pub record Outcome : Type 0 where
  pub ok : ℕ
  pub failed : ℕ

abbrev pub counted : Bool → Outcome → Outcome
counted true o = record o { ok = o.ok + 1 }
counted false o = record o { failed = o.failed + 1 }

abbrev pub body_of : {N : Type 0} → QueuedCheckin N → Body N
body_of r = record {
  latitude = r.latitude;
  longitude = r.longitude;
  accuracy_m = r.accuracy_m;
  selfie_base64 = r.selfie_base64;
  captured_at = r.captured_at;
}

module _ {N S : Type 0} (post : Kind → Body N → S → Bool × S) where
  -- `postFn`; `post` is the server behind it, which says whether the promise resolves.
  unfoldable pub post_row : QueuedCheckin N → M N S (Unit {0})
  post_row r w =
      let (accepts, server') = post r.kind (body_of r) w.server in
      let w' = record w { server = server'; posted = r.id ∷ w.posted } in
      if accepts then (some tt, record w' { accepted = r.id ∷ w.accepted }) else (none, w')

module _ {N S : Type 0} (faults : ℕ → Fault) (post : Kind → Body N → S → Bool × S) where
  -- The `try` block, and the `catch` block, which may be rejected in its turn. The result says which of
  -- the two counters goes up.
  unfoldable pub flush_row : QueuedCheckin N → M N S Bool
  flush_row r w =
      let (tried, w') = (do post_row post r; dequeue faults r.id) w in
      elim tried [ some u ↦ (some true, w') | none ↦ (do bump_attempt faults r.id; pure false) w' ]

  -- The loop, over the rows read before it.
  unfoldable pub flush_rows : List (QueuedCheckin N) → Outcome → M N S Outcome
  flush_rows [] o w = (some o, w)
  flush_rows (r ∷ rs) o w =
      let (b, w') = flush_row r w in
      elim b [ none ↦ (none, w') | some done ↦ flush_rows rs (counted done o) w' ]

  unfoldable pub flush_queue : M N S Outcome
  flush_queue = do rows ← list_queued faults; flush_rows rows (record { ok = 0; failed = 0 })
