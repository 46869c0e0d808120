-- ===== src/Kiosk/Rounds.antt =====
-- A tick of the recognize loop and a doubtful reply to it (kiosk-web/src/pages/MainPage.tsx): what the two
-- do to the page, with the scan line off or on before.
use hr_profi_uz.Common.{
  ℕ, String, true, false, ◌≡◌, none, some, [], ◌∷◌, ◌+◌, arith, is_blank, ltb, Bool, Option,
  is_some, refl, not, eq_iff, Bool-cases, inl, inr,
}
use hr_profi_uz.Kiosk.Types.{RecognizeResponse}
use hr_profi_uz.Kiosk.Screen.{Screen, replied, loop_runs, direction_of, older, tick, Mode}
use hr_profi_uz.Kiosk.Machine.{
  tick_due, reply_arrives, run, step, same_mode, same_bool, same_option, same_render, commit,
  cancelled, handle, arrived,
}

abbrev pub doubtful : RecognizeResponse
doubtful = record { matched = false; found = none; reason = some "low_confidence" }

-- A tick of the loop and its reply.
abbrev pub round : ℕ → String → Screen → Screen
round now frame s =
    run (tick_due (some frame) ∷ reply_arrives now (some frame) (replied doubtful) ∷ []) s

-- The loop runs, nothing is on its way, `n` doubtful frames are counted, and `busy` is the value of
-- `scanning`.
pub record IsScanning (busy : Bool) (n : ℕ) (s : Screen) : Type 0 where
  pub runs : loop_runs s ≡ true
  pub free : s.recognizing ≡ false
  pub busy_flag : s.scanning ≡ busy
  pub streak : s.low_confidence_streak ≡ n
  pub hidden : s.reject_shown ≡ false

-- The request of a tick is on its way, cancelled or not.
pub record IsWaiting (gone : Bool) (n : ℕ) (s : Screen) : Type 0 where
  pub runs : loop_runs s ≡ true
  pub sent : s.flight ≡ some (record { direction = direction_of s.mode; cancelled = gone })
  pub busy_flag : s.scanning ≡ true
  pub streak : s.low_confidence_streak ≡ n
  pub hidden : s.reject_shown ≡ false

abbrev fired : Screen → Screen
fired s = record s {
  recognizing = true;
  scanning = true;
  flight = some (record { direction = direction_of s.mode; cancelled = false });
  others = older s.flight s.others;
}

tick-fired :
    (busy : Bool) (n : ℕ) (frame : String) (s : Screen)
    → is_blank frame ≡ false
    → IsScanning busy n s
    → (tick (some frame) s).0 ≡ fired s
unfolding tick
tick-fired busy n frame s h v = rw (v.runs, v.free, h) refl

same_mode_refl : (m : Mode) → same_mode m m ≡ true
same_mode_refl Mode.idle = refl
same_mode_refl Mode.scan_in = refl
same_mode_refl Mode.scan_out = refl

same_bool_refl : (b : Bool) → same_bool b b ≡ true
same_bool_refl true = refl
same_bool_refl false = refl

same_option_refl : (o : Option String) → same_option o o ≡ true
same_option_refl none = refl
same_option_refl (some s) = ground (arith, eq_iff s s)

-- Sending renders the page just when `scanning` was false.
renders_when_idle : (s : Screen) (busy : Bool) → s.scanning ≡ busy → same_render s (fired s) ≡ busy
unfolding same_render
renders_when_idle s busy e =
    rw
      (
        same_mode_refl s.mode,
        same_bool_refl (is_some s.confirm_emp),
        same_bool_refl (is_some s.result),
        same_bool_refl (is_some s.optimistic),
        same_bool_refl s.reject_shown,
        same_bool_refl s.manual_open,
        same_bool_refl s.is_pending,
        same_option_refl s.error_msg,
        same_option_refl s.last_match_name,
        e,
      )
      (ground (arith, eq_iff s.search s.search))

commit-fired :
    (s : Screen) (busy : Bool) (n : ℕ)
    → IsScanning busy n s
    → IsWaiting (not busy) n (commit s (fired s))
unfolding commit cancelled loop_runs
commit-fired s true n v =
    rw (renders_when_idle s true v.busy_flag) (record {
      runs = v.runs;
      sent = refl;
      busy_flag = refl;
      streak = v.streak;
      hidden = v.hidden;
    })
commit-fired s false n v =
    rw (renders_when_idle s false v.busy_flag) (record {
      runs = v.runs;
      sent = refl;
      busy_flag = refl;
      streak = v.streak;
      hidden = v.hidden;
    })

pub ticked-IsWaiting :
    (busy : Bool) (n : ℕ) (frame : String) (s : Screen)
    → is_blank frame ≡ false
    → IsScanning busy n s
    → IsWaiting (not busy) n (step (tick_due (some frame)) s).0
unfolding step handle
ticked-IsWaiting busy n frame s h v = rw (tick-fired busy n frame s h v) (commit-fired s busy n v)

pub commit-IsScanning :
    (busy : Bool) (n : ℕ) (s t : Screen) → IsScanning busy n t → IsScanning busy n (commit s t)
unfolding commit cancelled loop_runs
commit-IsScanning busy n s t v = elim (Bool-cases (same_render s t)) [
  | inl e ↦ rw e v
  | inr e ↦ rw e (record {
    runs = v.runs;
    free = v.free;
    busy_flag = v.busy_flag;
    streak = v.streak;
    hidden = v.hidden;
  })
]

-- A cancelled request leaves the count as it is, and `scanning` on.
pub lost_reply :
    (n now : ℕ) (frame : Option String) (t : Screen)
    → IsWaiting true n t
    → IsScanning true n (arrived now frame (replied doubtful) t).0
unfolding arrived loop_runs
lost_reply n now frame t v = rw v.sent (record {
  runs = v.runs;
  free = refl;
  busy_flag = v.busy_flag;
  streak = v.streak;
  hidden = v.hidden;
})

pub counted_reply :
    (n now : ℕ) (frame : Option String) (t : Screen)
    → ltb (n + 1) 3 ≡ true
    → IsWaiting false n t
    → IsScanning false (n + 1) (arrived now frame (replied doubtful) t).0
unfolding arrived loop_runs
counted_reply n now frame t h v = ground arith

pub third_reply :
    (now : ℕ) (frame : Option String) (t : Screen)
    → IsWaiting false 2 t
    → let u = (arrived now frame (replied doubtful) t).0 in
      (u.reject_shown ≡ true) × (u.low_confidence_streak ≡ 0)
unfolding arrived
third_reply now frame t v = ground arith
