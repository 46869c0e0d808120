-- ===== src/Ws/Delivery.antt =====
-- Who is called for a frame (admin-web/src/lib/ws.ts).
use text.Mathlib.TextPositions.{eq_refl}
use hr_profi_uz.Ws.Machine.{on_message, on, off, without, AdminWs, subscribers, envelope, add_fn}
use hr_profi_uz.Common.{
  ℕ, List, ◌++◌, any, count_by, ◌≡◌, ◌==◌, String, ◌∷◌, true, false, ◌+◌, ◌≤◌, arith, is_blank,
  ◌===◌, [], refl, lookup, some, if◌then◌else◌, lookup-insert,
}

-- How often a listener is called.
abbrev pub calls : ℕ → List ℕ → ℕ
calls fn fns = count_by (λ m. m == fn) fns

calls-append : (fn : ℕ) (xs ys : List ℕ) → calls fn (xs ++ ys) ≡ calls fn xs + calls fn ys
calls-append fn [] ys = ground arith
calls-append fn (x ∷ xs) ys = ground (arith, calls-append fn xs ys)

calls-without : (fn : ℕ) (xs : List ℕ) → calls fn (without fn xs) ≡ 0
calls-without fn [] = refl
calls-without fn (x ∷ xs) = ground (arith, calls-without fn xs)

calls-ne_any : (fn : ℕ) (xs : List ℕ) → any (λ m. m == fn) xs ≡ false → calls fn xs ≡ 0
calls-ne_any fn [] h = refl
calls-ne_any fn (x ∷ xs) h = ground (arith, calls-ne_any fn xs)

any-calls : (fn : ℕ) (xs : List ℕ) → any (λ m. m == fn) xs ≡ true → 1 ≤ calls fn xs
any-calls fn [] h = cc
any-calls fn (x ∷ xs) h = ground (arith, any-calls fn xs)

calls-add_fn : (fn : ℕ) (xs : List ℕ) → calls fn xs ≤ 1 → calls fn (add_fn fn xs) ≡ 1
calls-add_fn fn xs h =
    ground (arith, calls-append fn xs (fn ∷ []), calls-ne_any fn xs, any-calls fn xs)

-- The listeners of an event.
abbrev pub listening : String → AdminWs → List ℕ
listening event s = subscribers (lookup event s.listeners)

on-listening :
    (event k : String) (fn : ℕ) (s : AdminWs)
    → listening k (on event fn s)
      ≡ (if event === k then add_fn fn (listening event s) else listening k s)
unfolding on
on-listening event k fn s =
    ground (arith, lookup-insert event k (add_fn fn (listening event s)) s.listeners)

off-listening :
    (event k : String) (fn : ℕ) (s : AdminWs)
    → listening k (off event fn s)
      ≡ (if event === k then without fn (listening event s) else listening k s)
unfolding off
off-listening event k fn s =
    ground (arith, lookup-insert event k (without fn (listening event s)) s.listeners)

calls-on_message :
    (fn : ℕ) (event : String) (s : AdminWs)
    → is_blank event ≡ false
    → calls fn (on_message (envelope (some event)) s)
      ≡ calls fn (listening event s) + calls fn (listening "*" s)
unfolding on_message
calls-on_message fn event s h = rw h (calls-append fn (listening event s) (listening "*" s))

-- After a listener has subscribed to an event to which it was subscribed at most once, and not to the
-- wildcard, a frame of that event calls it exactly once; after it has unsubscribed, not at all.
subscribed_called_once :
    (event : String) (fn : ℕ) (s : AdminWs)
    → is_blank event ≡ false
    → (event === "*") ≡ false
    → calls fn (subscribers (lookup event s.listeners)) ≤ 1
    → calls fn (subscribers (lookup "*" s.listeners)) ≡ 0
    → let frame = envelope (some event) in
      (calls fn (on_message frame (on event fn s)) ≡ 1)
      × (calls fn (on_message frame (off event fn (on event fn s))) ≡ 0)
subscribed_called_once event fn s h w once none_wild =
    let t = on event fn s in
    ground (
      arith,
      eq_refl event,
      on-listening event event fn s,
      on-listening event "*" fn s,
      off-listening event event fn t,
      off-listening event "*" fn t,
      calls-on_message fn event t h,
      calls-on_message fn event (off event fn t) h,
      calls-add_fn fn (listening event s) once,
      calls-without fn (listening event t),
    )
