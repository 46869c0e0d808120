-- ===== src/Queue/Submit.antt =====
-- The submission of a check-in: `isNetworkError` and the `mutationFn` of `submitMut` in
-- client-web/app/(app)/today/page.tsx.
use hr_profi_uz.Queue.Order.{get-put, Fault-cases}
use hr_profi_uz.Queue.Store.{
  Fault, commits, refused, lost, Kind, Capture, enqueue_checkin, M, World, row_of, get,
}
use hr_profi_uz.Common.{
  Option, ℕ, String, Bool, some, ◌||◌, false, none, ◌===◌, not, if◌then◌else◌, ◌≡◌, ◌⊎◌, true, ◌==◌,
  Option-cases, inl, arith, inr, refl, eq_iff,
}

-- What a rejected request throws: an axios error with its code, and whether a response came.
pub data PostError : Type 0 where
  axios_error : (code : Option String) → (has_response : Bool) → PostError
  other_error : PostError

abbrev pub code_is : String → Option String → Bool
code_is name none = false
code_is name (some c) = c === name

-- `isNetworkError`
unfoldable pub is_network_error : PostError → Bool
is_network_error (axios_error code has_response) =
    code_is "ERR_NETWORK" code || (code_is "ECONNABORTED" code || not has_response)
is_network_error other_error = false

-- What the axios errors of a request without an answer look like: a network error, a timeout, or any
-- error that carries no response.
abbrev pub Unreached : PostError → Type 0
Unreached (axios_error code has_response) =
    (code ≡ some "ERR_NETWORK") ⊎ ((code ≡ some "ECONNABORTED") ⊎ (has_response ≡ false))
Unreached other_error = ⊥

is_network_error-Unreached :
    (e : PostError)
    → ((is_network_error e ≡ true) × Unreached e) ⊎ ((is_network_error e ≡ false) × (¬ Unreached e))
unfolding is_network_error
is_network_error-Unreached (axios_error none has_response) = ground arith
is_network_error-Unreached (axios_error (some c) has_response) =
    ground (arith, eq_iff c "ERR_NETWORK", eq_iff c "ECONNABORTED")
is_network_error-Unreached other_error = inr (refl, λ h. h)

pub record Position (N : Type 0) : Type 0 where
  pub latitude : N
  pub longitude : N
  pub accuracy : N

-- `pos?.coords.latitude ?? null`
abbrev pub field : {N : Type 0} → (Position N → N) → Option (Position N) → Option N
field f none = none
field f (some p) = some (f p)

-- What the mutation resolves to, or the error that it throws.
pub data Submitted : Type 0 where
  recorded queued : Submitted
  thrown : PostError → Submitted

abbrev pub capture_of : {N : Type 0} → Kind → String → Option (Position N) → String → Capture N
capture_of mode now pos selfie = record {
  kind = mode;
  captured_at = now;
  latitude = field (λ p. p.latitude) pos;
  longitude = field (λ p. p.longitude) pos;
  accuracy_m = field (λ p. p.accuracy) pos;
  selfie_base64 = selfie;
}

module _ {N S : Type 0} (faults : ℕ → Fault)
    (post_checkin : Kind → Capture N → S → Option PostError × S) where
  -- The `mutationFn`: `pos` is what `getCurrentPosition` resolves to, `now` the clock's text, `uuid` what
  -- `crypto.randomUUID` returns, `online` is `navigator.onLine` at the `catch`.
  unfoldable pub submit : Kind → String → Option (Position N) → String → Bool → ℕ → M N S Submitted
  submit mode selfie pos now online uuid w =
      let c = capture_of mode now pos selfie in
      let (error, server') = post_checkin mode c w.server in
      let w' = record w { server = server' } in
      let (stored, w'') = enqueue_checkin faults uuid c w' in
      elim error [
        | none ↦ (some recorded, w')
        | some e ↦
            if is_network_error e || not online
            then (elim stored [ none ↦ none | some row ↦ some queued ], w'')
            else (some (thrown e), w')
      ]

  -- The request is posted once. A check-in that the server takes leaves the queue alone; so does one that
  -- it answers with an error while the page is online, which is thrown. One that gets no answer, or fails
  -- while the page is offline, goes to the store: if the transaction is refused, it is rejected and the
  -- queue as before; if it commits, it is reported as queued and stands under its new key with the
  -- position, the selfie and the time of the capture and no attempt counted, the rows of the other keys
  -- staying; and if it is aborted at the commit, it is reported as queued too, with the queue as before.
  pub submit_outcomes :
      (mode : Kind) (selfie now : String) (pos : Option (Position N)) (online : Bool) (uuid k : ℕ)
      (w : World N S)
      → let (error, server') = post_checkin mode (capture_of mode now pos selfie) w.server in
        let (b, w') = submit mode selfie pos now online uuid w in
        let row = row_of uuid (capture_of mode now pos selfie) in
        (w'.server ≡ server')
        × (((error ≡ none) × (b ≡ some recorded) × (w'.rows ≡ w.rows))
            ⊎ ((e : PostError) × (error ≡ some e)
                × (((¬ Unreached e) × (online ≡ true) × (b ≡ some (thrown e)) × (w'.rows ≡ w.rows))
                    ⊎ ((Unreached e ⊎ (online ≡ false))
                        × (((faults w.begun ≡ refused) × (b ≡ none) × (w'.rows ≡ w.rows))
                            ⊎ (((faults w.begun ≡ lost) × (b ≡ some queued) × (w'.rows ≡ w.rows))
                                ⊎ ((faults w.begun ≡ commits)
                                    × (b ≡ some queued)
                                    × (get k w'.rows
                                        ≡ (if uuid == k then some row else get k w.rows)))))))))
  unfolding submit enqueue_checkin
  submit_outcomes mode selfie now pos online uuid k w =
      let c = capture_of mode now pos selfie in
      let put_back = get-put k (row_of uuid c) w.rows in
      elim (Option-cases (post_checkin mode c w.server).0) [
        | inl taken ↦ ground arith
        | inr (e, failed) ↦
            ground (arith, put_back, Fault-cases (faults w.begun), is_network_error-Unreached e)
      ]
