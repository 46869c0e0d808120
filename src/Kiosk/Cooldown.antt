-- ===== src/Kiosk/Cooldown.antt =====
-- The cooldown of the recognize loop (kiosk-web/src/pages/MainPage.tsx): when it lets a match through
-- to the server, and what it swallows.
use hr_profi_uz.Common.{
  ℕ, String, Bool, false, ◌≡◌, Option, none, some, List, [], ◌∷◌, ◌+◌, ◌≤◌, ◌<◌, arith, All, lookup,
  lookup-insert, eq_iff, Option-cases, inl, inr, Bool-cases, refl,
}
use hr_profi_uz.Kiosk.Types.{Employee, RecognizeResponse}
use hr_profi_uz.Kiosk.Screen.{
  Screen, Direction, Reply, or_zero, thank_you, per_employee_cooldown_ms, in_cooldown, handle_match,
  check_failed, handle_reply, handle_miss, land, Flight, replied, failed,
}
use hr_profi_uz.Kiosk.Machine.{
  Event, arrived, reply_arrives, pick, step, handle, run, commit, cancelled, same_render,
  older_arrived, older_landed, older_reply_arrives,
}
use hr_profi_uz.Kiosk.Loop.{first_post}

-- `cooldownRef.current.get(id) ?? 0`
abbrev pub stamp : String → Screen → ℕ
stamp id s = or_zero (lookup id s.cooldown)

-- The clock at an event, where it reads the clock, is not before `t`.
abbrev pub NotBefore : ℕ → Event → Type 0
NotBefore t (reply_arrives now frame reply) = t ≤ now
NotBefore t (older_reply_arrives now frame reply) = t ≤ now
NotBefore t _ = Unit

commit-cooldown : (s t : Screen) → (commit s t).cooldown ≡ t.cooldown
unfolding commit cancelled
commit-cooldown s t = elim (Bool-cases (same_render s t)) [ inl e ↦ rw e refl | inr e ↦ rw e refl ]

module _ (t : ℕ) (id : String) (now : ℕ) (frame : Option String) (later : t ≤ now) where
  handle_match-stamp :
      (dir : Direction) (emp : Employee) (s : Screen)
      → t ≤ stamp id s
      → t ≤ stamp id (handle_match now frame dir emp s).0
  unfolding handle_match
  handle_match-stamp dir emp s h = ground (arith, lookup-insert emp.id id now s.cooldown)

  handle_miss-stamp :
      (reason : Option String) (s : Screen) → t ≤ stamp id s → t ≤ stamp id (handle_miss reason s).0
  unfolding handle_miss
  handle_miss-stamp reason s h = ground arith

  handle_reply-stamp :
      (dir : Direction) (r : RecognizeResponse) (s : Screen)
      → t ≤ stamp id s
      → t ≤ stamp id (handle_reply now frame dir r s).0
  unfolding handle_reply
  handle_reply-stamp dir r s h = elim (Option-cases r.found) [
    | inl missing ↦ ground (arith, handle_miss-stamp r.reason s)
    | inr (m, found) ↦
        ground (arith, handle_miss-stamp r.reason s, handle_match-stamp dir m.employee s)
  ]

  land-stamp :
      (reply : Reply) (f : Flight) (s : Screen)
      → t ≤ stamp id s
      → t ≤ stamp id (land now frame reply f s).0
  unfolding land
  land-stamp failed f s h = h
  land-stamp (replied r) f s h = ground (arith, handle_reply-stamp f.direction r s)

  arrived-stamp :
      (reply : Reply) (s : Screen) → t ≤ stamp id s → t ≤ stamp id (arrived now frame reply s).0
  unfolding arrived
  arrived-stamp reply s h = elim (Option-cases s.flight) [
    | inl missing ↦ ground arith
    | inr (f, found) ↦ ground (arith, land-stamp reply f (record s { flight = none }))
  ]

  older_landed-stamp :
      (reply : Reply) (fs : List Flight) (s : Screen)
      → t ≤ stamp id s
      → t ≤ stamp id (older_landed now frame reply fs s).0
  unfolding older_landed
  older_landed-stamp reply [] s h = h
  older_landed-stamp reply (f ∷ fs) s h = land-stamp reply f (record s { others = fs }) h

handle-stamp :
    (t : ℕ) (id : String) (e : Event) (s : Screen)
    → NotBefore t e
    → t ≤ stamp id s
    → t ≤ stamp id (handle e s).0
unfolding handle older_arrived
handle-stamp t id (pick m) s k h = ground arith
handle-stamp t id (reply_arrives now frame reply) s k h = arrived-stamp t id now frame k reply s h
handle-stamp t id (older_reply_arrives now frame reply) s k h =
    older_landed-stamp t id now frame k reply s.others s h
handle-stamp t id _ s k h = ground arith

run-stamp :
    (t : ℕ) (id : String) (es : List Event) (s : Screen)
    → All (NotBefore t) es
    → t ≤ stamp id s
    → t ≤ stamp id (run es s)
unfolding run step
run-stamp t id [] s k h = h
run-stamp t id (e ∷ es) s (k, ks) h =
    run-stamp t id es _ ks (rw (commit-cooldown s (handle e s).0) (handle-stamp t id e s k h))

-- What a posted check tells of the stamps before and after.
abbrev PostedAt : ℕ → String → Screen → Screen → Type 0
PostedAt now id s t = (stamp id s + per_employee_cooldown_ms ≤ now) × (stamp id t ≡ now)

module _ (now : ℕ) (frame : Option String) (path id : String) where
  handle_match-PostedAt :
      (dir : Direction) (emp : Employee) (s : Screen)
      → first_post (handle_match now frame dir emp s).1 ≡ some (path, id)
      → PostedAt now id s (handle_match now frame dir emp s).0
  unfolding handle_match
  handle_match-PostedAt dir emp s h =
      ground (arith, lookup-insert emp.id id now s.cooldown, eq_iff emp.id id)

  handle_miss-silent :
      (reason : Option String) (s : Screen) → first_post (handle_miss reason s).1 ≡ none
  unfolding handle_miss
  handle_miss-silent reason s = ground arith

  handle_reply-PostedAt :
      (dir : Direction) (r : RecognizeResponse) (s : Screen)
      → first_post (handle_reply now frame dir r s).1 ≡ some (path, id)
      → PostedAt now id s (handle_reply now frame dir r s).0
  unfolding handle_reply
  handle_reply-PostedAt dir r s h = elim (Option-cases r.found) [
    | inl missing ↦ ground (arith, handle_miss-silent r.reason s)
    | inr (m, found) ↦
        ground (arith, handle_miss-silent r.reason s, handle_match-PostedAt dir m.employee s)
  ]

  land-PostedAt :
      (reply : Reply) (f : Flight) (s : Screen)
      → first_post (land now frame reply f s).1 ≡ some (path, id)
      → PostedAt now id s (land now frame reply f s).0
  unfolding land
  land-PostedAt failed f s h = cc
  land-PostedAt (replied r) f s h = ground (arith, handle_reply-PostedAt f.direction r s)

  arrived-PostedAt :
      (reply : Reply) (s : Screen)
      → first_post (arrived now frame reply s).1 ≡ some (path, id)
      → PostedAt now id s (arrived now frame reply s).0
  unfolding arrived
  arrived-PostedAt reply s h = elim (Option-cases s.flight) [
    | inl missing ↦ ground arith
    | inr (f, found) ↦ ground (arith, land-PostedAt reply f (record s { flight = none }))
  ]

  step-PostedAt :
      (reply : Reply) (s : Screen)
      → first_post (step (reply_arrives now frame reply) s).1 ≡ some (path, id)
      → PostedAt now id s (step (reply_arrives now frame reply) s).0
  unfolding step handle
  step-PostedAt reply s h =
      rw (commit-cooldown s (arrived now frame reply s).0) (arrived-PostedAt reply s h)

-- If two recognize replies make the page post a check for the same employee, with any events between
-- them and a clock that does not run back before the first, the second comes at least 30 seconds after
-- the first.
pub posts_spaced :
    (s : Screen) (es : List Event) (now₁ now₂ : ℕ) (frame₁ frame₂ : Option String)
    (reply₁ reply₂ : Reply) (path₁ path₂ id : String)
    → let t = (step (reply_arrives now₁ frame₁ reply₁) s).0 in
      first_post (step (reply_arrives now₁ frame₁ reply₁) s).1 ≡ some (path₁, id)
      → All (NotBefore now₁) es
      → first_post (step (reply_arrives now₂ frame₂ reply₂) (run es t)).1 ≡ some (path₂, id)
      → now₁ + per_employee_cooldown_ms ≤ now₂
posts_spaced s es now₁ now₂ frame₁ frame₂ reply₁ reply₂ path₁ path₂ id h ks k =
    let t = (step (reply_arrives now₁ frame₁ reply₁) s).0 in
    let (_, stamped) = step-PostedAt now₁ frame₁ path₁ id reply₁ s h in
    let kept = run-stamp now₁ id es t ks (omega arith) in
    let (spaced, _) = step-PostedAt now₂ frame₂ path₂ id reply₂ (run es t) k in omega arith

-- Once a match has passed the cooldown, a match of the same employee less than 30 seconds later only
-- thanks the employee and posts nothing: also when the first check has failed in between, and also for
-- the other direction.
repeat_is_thanked_only :
    (s : Screen) (emp : Employee) (dir₁ dir₂ : Direction) (now₁ now₂ : ℕ)
    (frame₁ frame₂ : Option String) (latest : Bool) (msg : String)
    → in_cooldown now₁ emp.id s ≡ false
    → now₂ < now₁ + per_employee_cooldown_ms
    → let t = (handle_match now₁ frame₁ dir₁ emp s).0 in
      let u = (check_failed latest msg t).0 in
      let w = handle_match now₂ frame₂ dir₂ emp u in
      (w.1 ≡ thank_you emp ∷ []) × (w.0.optimistic ≡ none) × (w.0.error_msg ≡ some msg)
unfolding handle_match check_failed
repeat_is_thanked_only s emp dir₁ dir₂ now₁ now₂ frame₁ frame₂ latest msg h k =
    ground (arith, lookup-insert emp.id emp.id now₁ s.cooldown, eq_iff emp.id emp.id)
