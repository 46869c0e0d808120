-- ===== src/Queue/Store.antt =====
-- The rows, the object store and its transactions (client-web/lib/offline-queue.ts). `N` is the type of
-- the source's numbers that are only passed through. A UUID is its 128-bit number: the store sorts keys
-- by their text, which for texts of one length and case is the order of the numbers.
use Prim.Native.Nat.{ℕ}
use hr_profi_uz.Common.{Option, List, some, ◌∷◌, none, if◌then◌else◌, ◌+◌, ◌==◌, ltb, String, []}

-- `"in" | "out"`
pub data Kind : Type 0 where
  kind_in kind_out : Kind

-- `QueuedCheckin`
pub record QueuedCheckin (N : Type 0) : Type 0 where
  pub id : ℕ
  pub kind : Kind
  pub captured_at : String
  pub latitude : Option N
  pub longitude : Option N
  pub accuracy_m : Option N
  pub selfie_base64 : String
  pub attempts : ℕ

-- `Omit<QueuedCheckin, "id" | "attempts">`
pub record Capture (N : Type 0) : Type 0 where
  pub kind : Kind
  pub captured_at : String
  pub latitude : Option N
  pub longitude : Option N
  pub accuracy_m : Option N
  pub selfie_base64 : String

module _ {N : Type 0} where
  -- The object store, in the order of its keys: `put`, `delete` and `get`.
  unfoldable pub put : QueuedCheckin N → List (QueuedCheckin N) → List (QueuedCheckin N)
  put r [] = r ∷ []
  put r (x ∷ xs) =
      let rest = put r xs in
      if r.id == x.id then r ∷ xs else if ltb r.id x.id then r ∷ x ∷ xs else x ∷ rest

  unfoldable pub delete : ℕ → List (QueuedCheckin N) → List (QueuedCheckin N)
  delete k [] = []
  delete k (x ∷ xs) = let rest = delete k xs in if x.id == k then rest else x ∷ rest

  unfoldable pub get : ℕ → List (QueuedCheckin N) → Option (QueuedCheckin N)
  get k [] = none
  get k (x ∷ xs) = if x.id == k then some x else get k xs

-- The queue's surroundings: the server's state, the rows, how many transactions were begun, and the
-- keys of the rows that were posted to the server and of those that it has accepted, newest first, which
-- only the statements read.
pub record World (N S : Type 0) : Type 0 where
  pub server : S
  pub rows : List (QueuedCheckin N)
  pub begun : ℕ
  pub posted : List ℕ
  pub accepted : List ℕ

-- A promise that is rejected gives `none`.
abbrev pub M : Type 0 → Type 0 → Type 0 → Type 0
M N S A = World N S → Option A × World N S

module _ {N S A B : Type 0} where
  infixl 5 ◌>>=◌ ◌>>◌
  abbrev pub ◌>>=◌ : M N S A → (A → M N S B) → M N S B
  ◌>>=◌ m k w = let (r, w') = m w in elim r [ none ↦ (none, w') | some a ↦ k a w' ]

  abbrev pub ◌>>◌ : M N S A → M N S B → M N S B
  ◌>>◌ m k = m >>= λ _. k

abbrev pub pure : {N S A : Type 0} → A → M N S A
pure a w = (some a, w)

-- A promise whose value nobody reads.
abbrev pub forget : {A : Type 0} → Option A → Option (Unit {0})
forget none = none
forget (some a) = some tt

-- A request of the object store: what it does to the rows, its result, and the handler that its
-- `onsuccess` attribute holds.
pub record Request (N A : Type 0) : Type 0 where
  pub work : List (QueuedCheckin N) → List (QueuedCheckin N)
  pub result : A
  pub onsuccess : List (QueuedCheckin N) → List (QueuedCheckin N)

abbrev pub no_handler : {N : Type 0} → List (QueuedCheckin N) → List (QueuedCheckin N)
no_handler rows = rows

module _ {N : Type 0} where
  abbrev pub row_of : ℕ → Capture N → QueuedCheckin N
  row_of uuid c = record {
    id = uuid;
    kind = c.kind;
    captured_at = c.captured_at;
    latitude = c.latitude;
    longitude = c.longitude;
    accuracy_m = c.accuracy_m;
    selfie_base64 = c.selfie_base64;
    attempts = 0;
  }

  -- The handler that `bumpAttempt` gives its request.
  unfoldable pub put_bumped :
      Option (QueuedCheckin N) → List (QueuedCheckin N) → List (QueuedCheckin N)
  put_bumped none rows = rows
  put_bumped (some row) rows = put (record row { attempts = row.attempts + 1 }) rows

-- How a transaction ends: it commits; it is refused before its request has succeeded; or its request
-- succeeds and the transaction is aborted at the commit, which undoes its writes.
pub data Fault : Type 0 where
  commits refused lost : Fault

-- The promise of a transaction: it is settled by the request, before the commit, and stays so.
abbrev pub ended : {N S A : Type 0} → Fault → A → List (QueuedCheckin N) → M N S A
ended commits a rows w = (some a, record w { rows = rows })
ended refused a rows w = (none, w)
ended lost a rows w = (some a, w)

-- `faults n` says how the `n`-th transaction ends.
module _ {N S : Type 0} (faults : ℕ → Fault) where
  -- `tx`: it opens the database, makes the request, and sets the request's `onsuccess` attribute to the
  -- function that resolves the promise, which replaces a handler that stood there.
  unfoldable pub tx : {A : Type 0} → (List (QueuedCheckin N) → Request N A) → M N S A
  tx fn w =
      let w' = record w { begun = w.begun + 1 } in
      let r = fn w.rows in
      let resolving = record r { onsuccess = no_handler } in
      ended (faults w.begun) resolving.result (resolving.onsuccess (resolving.work w.rows)) w'

  -- `enqueueCheckin`; `uuid` is what `crypto.randomUUID` returns. Registering the background sync never
  -- fails and touches neither the rows nor the server.
  unfoldable pub enqueue_checkin : ℕ → Capture N → M N S (QueuedCheckin N)
  unfolding tx
  enqueue_checkin uuid c w =
      let (put_done, w') =
        tx (λ rows. record { work = put (row_of uuid c); result = tt; onsuccess = no_handler }) w in
      (elim put_done [ none ↦ none | some u ↦ some (row_of uuid c) ], w')

  -- `listQueued`
  unfoldable pub list_queued : M N S (List (QueuedCheckin N))
  unfolding tx
  list_queued = tx (λ rows. record { work = no_handler; result = rows; onsuccess = no_handler })

  unfoldable pub dequeue : ℕ → M N S (Unit {0})
  unfolding tx
  dequeue id = tx (λ rows. record { work = delete id; result = tt; onsuccess = no_handler })

  unfoldable pub bump_attempt : ℕ → M N S (Unit {0})
  unfolding tx put_bumped
  bump_attempt id w =
      let (row, w') =
        tx
          (λ rows. record {
            work = no_handler;
            result = get id rows;
            onsuccess = put_bumped (get id rows);
          })
          w in
      (forget row, w')

  unfoldable pub clear_queue : M N S (Unit {0})
  unfolding tx
  clear_queue = tx (λ rows. record { work = λ all. []; result = tt; onsuccess = no_handler })
