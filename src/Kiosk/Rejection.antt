-- ===== src/Kiosk/Rejection.antt =====
-- The "not recognized" overlay (kiosk-web/src/pages/MainPage.tsx): of the doubtful frames in a row every
-- second one is counted, since sending a frame that turns the scan line on cancels its own request.
use hr_profi_uz.Common.{
  ℕ, String, true, false, ◌≡◌, some, [], ◌∷◌, List, ◌+◌, arith, is_blank, ltb, refl, Bool-cases,
  inl, inr, subst, sym,
}
use hr_profi_uz.Kiosk.Screen.{Screen, replied, loop_runs, Mode, is_idle}
use hr_profi_uz.Kiosk.Machine.{
  tick_due, run, step, same_render, commit, cancelled, handle, arrived, reject_timeout,
}
use hr_profi_uz.Kiosk.Rounds.{
  doubtful, round, IsScanning, ticked-IsWaiting, commit-IsScanning, lost_reply, counted_reply,
  third_reply,
}

round_lost :
    (n now : ℕ) (frame : String) (s : Screen)
    → is_blank frame ≡ false
    → IsScanning false n s
    → IsScanning true n (round now frame s)
unfolding run step handle
round_lost n now frame s h v =
    let t = (step (tick_due (some frame)) s).0 in
    commit-IsScanning true n t (arrived now (some frame) (replied doubtful) t).0
      (lost_reply n now (some frame) t (ticked-IsWaiting false n frame s h v))

round_counted :
    (n now : ℕ) (frame : String) (s : Screen)
    → is_blank frame ≡ false
    → ltb (n + 1) 3 ≡ true
    → IsScanning true n s
    → IsScanning false (n + 1) (round now frame s)
unfolding run step handle
round_counted n now frame s h k v =
    let t = (step (tick_due (some frame)) s).0 in
    commit-IsScanning false (n + 1) t (arrived now (some frame) (replied doubtful) t).0
      (counted_reply n now (some frame) t k (ticked-IsWaiting true n frame s h v))

-- The rejection is shown, the count starts again, and the loop stands still.
pub record IsRejected (s : Screen) : Type 0 where
  pub shown : s.reject_shown ≡ true
  pub streak : s.low_confidence_streak ≡ 0
  pub stopped : loop_runs s ≡ false

commit-IsRejected : (s t : Screen) → IsRejected t → IsRejected (commit s t)
unfolding commit cancelled loop_runs
commit-IsRejected s t v = elim (Bool-cases (same_render s t)) [
  | inl e ↦ rw e v
  | inr e ↦ rw e (record { shown = v.shown; streak = v.streak; stopped = v.stopped })
]

rejected_stops : (s : Screen) → s.reject_shown ≡ true → loop_runs s ≡ false
unfolding loop_runs
rejected_stops s h = ground arith

round_rejects :
    (now : ℕ) (frame : String) (s : Screen)
    → is_blank frame ≡ false
    → IsScanning true 2 s
    → IsRejected (round now frame s)
unfolding run step handle
round_rejects now frame s h v =
    let t = (step (tick_due (some frame)) s).0 in
    let u = (arrived now (some frame) (replied doubtful) t).0 in
    let (shown, streak) = third_reply now (some frame) t (ticked-IsWaiting true 2 frame s h v) in
    commit-IsRejected t u
      (record { shown = shown; streak = streak; stopped = rejected_stops u shown })

commit-hidden :
    (s t : Screen)
    → t.reject_shown ≡ false
    → is_idle t.mode ≡ true
    → let w = commit s t in (w.reject_shown ≡ false) × (is_idle w.mode ≡ true)
unfolding commit cancelled
commit-hidden s t h k = elim (Bool-cases (same_render s t)) [
  | inl e ↦ rw e (h, k)
  | inr e ↦ rw e (h, k)
]

abbrev timed_out : Screen → Screen
timed_out s = record s { reject_shown = false; mode = Mode.idle }

reject_timeout-fired :
    (s : Screen) → s.reject_shown ≡ true → (handle reject_timeout s).0 ≡ timed_out s
unfolding handle
reject_timeout-fired s h = rw h refl

rejection_times_out :
    (s : Screen)
    → s.reject_shown ≡ true
    → let w = (step reject_timeout s).0 in (w.reject_shown ≡ false) × (is_idle w.mode ≡ true)
unfolding step
rejection_times_out s h =
    subst (λ t. ((commit s t).reject_shown ≡ false) × (is_idle (commit s t).mode ≡ true))
      (sym (reject_timeout-fired s h)) (commit-hidden s (timed_out s) refl refl)

-- One round for each of the times.
abbrev pub rounds : List ℕ → String → Screen → Screen
rounds [] frame s = s
rounds (now ∷ times) frame s = rounds times frame (round now frame s)

-- While the loop runs with nothing counted and the scan line off, six doubtful frames come in a row, at
-- any times, and nothing else happens. After three of them the loop still runs with one counted and no
-- overlay, after five with two; the sixth shows the rejection, resets the count and stops the loop, and
-- the overlay's timer then takes the page back to idle with the overlay gone.
pub sixth_doubtful_frame_rejects :
    (now₁ now₂ now₃ now₄ now₅ now₆ : ℕ) (frame : String) (s : Screen)
    → is_blank frame ≡ false
    → IsScanning false 0 s
    → let three = rounds (now₁ ∷ now₂ ∷ now₃ ∷ []) frame s in
      let five = rounds (now₄ ∷ now₅ ∷ []) frame three in
      let six = round now₆ frame five in
      let w = (step reject_timeout six).0 in
      IsScanning true 1 three
      × IsScanning true 2 five
      × IsRejected six
      × (w.reject_shown ≡ false)
      × (is_idle w.mode ≡ true)
sixth_doubtful_frame_rejects now₁ now₂ now₃ now₄ now₅ now₆ frame s h v =
    let s₁ = round now₁ frame s in
    let s₂ = round now₂ frame s₁ in
    let s₃ = round now₃ frame s₂ in
    let s₄ = round now₄ frame s₃ in
    let s₅ = round now₅ frame s₄ in
    let two = round_counted 0 now₂ frame s₁ h refl (round_lost 0 now₁ frame s h v) in
    let three = round_lost 1 now₃ frame s₂ h two in
    let five = round_lost 2 now₅ frame s₄ h (round_counted 1 now₄ frame s₃ h refl three) in
    let rejected = round_rejects now₆ frame s₅ h five in
    let (hidden, idled) = rejection_times_out (round now₆ frame s₅) rejected.shown in
    (three, five, rejected, hidden, idled)
