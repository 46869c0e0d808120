-- ===== src/Ws/Lifetime.antt =====
-- When the socket is opened and closed (admin-web/src/lib/ws.ts).
use hr_profi_uz.Common.{
  ℕ, List, ◌≡◌, ◌∷◌, Bool, String, true, ◌∙◌, arith, some, [], false, ◌===◌, none, ◌⊎◌, ◌<◌, refl,
  ◌+◌,
}
use hr_profi_uz.Ws.Machine.{on_close, disconnect, AdminWs, on_timer, connect, on, off}

-- What can happen without a call of `connect`.
pub data Event : Type 0 where
  closes : (socket : ℕ) → Event
  timer_fires : (refused : Bool) → Event
  subscribes unsubscribes : (event : String) → (fn : ℕ) → Event
  disconnects : Event

unfoldable pub step : Event → AdminWs → AdminWs
unfolding on_close on_timer on off disconnect
step (closes n) s = on_close n s
step (timer_fires refused) s = on_timer refused s
step (subscribes event fn) s = on event fn s
step (unsubscribes event fn) s = off event fn s
step disconnects s = disconnect s

pub run : List Event → AdminWs → AdminWs
run [] s = s
run (e ∷ es) s = run es (step e s)

-- Closed on purpose: no socket, no timer.
pub record IsClosed (s : AdminWs) : Type 0 where
  pub closed : s.explicitly_closed ≡ true
  pub no_timer : s.reconnect_timer ≡ false
  pub no_socket : s.socket ≡ none

step-IsClosed :
    (e : Event) (s : AdminWs) → IsClosed s → IsClosed (step e s) × ((step e s).created ≡ s.created)
unfolding step
step-IsClosed (closes n) s v = ground arith
step-IsClosed (timer_fires refused) s v = ground arith
step-IsClosed (subscribes event fn) s v = ground arith
step-IsClosed (unsubscribes event fn) s v = ground arith
step-IsClosed disconnects s v = ground arith

run-IsClosed :
    (es : List Event) (s : AdminWs)
    → IsClosed s
    → IsClosed (run es s) × ((run es s).created ≡ s.created)
unfolding run
run-IsClosed [] s v = (v, refl)
run-IsClosed (e ∷ es) s v =
    let (w, same) = step-IsClosed e s v in
    let (u, later) = run-IsClosed es (step e s) w in (u, later ∙ same)

disconnect-IsClosed : (s : AdminWs) → IsClosed (disconnect s) × ((disconnect s).created ≡ s.created)
unfolding disconnect
disconnect-IsClosed s = ground arith

-- After `disconnect`, whatever sockets close, timers fire and listeners come and go, no socket is made,
-- and no reconnect is pending, until `connect` is called.
pub disconnect_is_final :
    (s : AdminWs) (es : List Event)
    → IsClosed (run es (disconnect s)) × ((run es (disconnect s)).created ≡ s.created)
disconnect_is_final s es =
    let (v, same) = disconnect-IsClosed s in
    let (u, later) = run-IsClosed es (disconnect s) v in (u, later ∙ same)

-- When a socket closes while the connection is wanted and an URL is known, the timer opens a new socket at
-- the same URL, or stays set if the constructor throws.
lost_socket_is_replaced :
    (s : AdminWs) (n : ℕ) (refused : Bool) (url : String)
    → s.explicitly_closed ≡ false
    → s.url ≡ some url
    → let t = on_timer refused (on_close n s) in
      (t.url ≡ some url)
      × (((refused ≡ false) × (t.socket ≡ some s.created) × (t.reconnect_timer ≡ false))
          ⊎ ((refused ≡ true) × (t.socket ≡ none) × (t.reconnect_timer ≡ true)))
unfolding on_timer on_close
lost_socket_is_replaced s n refused url h e = ground arith

-- The panel is connected by socket `n` for one token and connects for another. The `onclose` of the old
-- socket runs after that: it drops the new socket, which stays connected, and the timer makes a third one,
-- so that two sockets are connected at once.
pub late_close_leaks_socket :
    (endpoint : String → String) (s : AdminWs) (n : ℕ) (t₁ t₂ : String)
    → s.socket ≡ some n
    → s.current_token ≡ some t₁
    → (t₁ === t₂) ≡ false
    → s.connected ≡ n ∷ []
    → n < s.created
    → let t = on_close n (connect endpoint t₂ false s) in
      let u = on_timer false t in
      (t.socket ≡ none)
      × (t.connected ≡ s.created ∷ [])
      × (u.connected ≡ (s.created + 1) ∷ s.created ∷ [])
unfolding on_timer on_close connect
late_close_leaks_socket endpoint s n t₁ t₂ h e ne c lt = ground arith
