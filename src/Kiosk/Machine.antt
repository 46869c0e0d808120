-- ===== src/Kiosk/Machine.antt =====
-- The events of the kiosk page and its step function (kiosk-web/src/pages/MainPage.tsx). An event that
-- the page cannot see in its state (a button that is not rendered, a timer that the cleanup of its
-- effect has cleared) changes nothing. A dependency of the loop's effect is `checkMut`, which
-- `useMutation` makes anew at every render, so after every step that renders the page React runs the
-- cleanup of the effect, which cancels the requests on their way.
use hr_profi_uz.Common.{
  ℕ, String, Bool, true, false, not, ◌&&◌, Option, none, some, List, [], ◌∷◌, if◌then◌else◌,
  is_some, ◌===◌,
}
use hr_profi_uz.Kiosk.Types.{Employee, AttendanceResponse}
use hr_profi_uz.Kiosk.Screen.{
  Screen, Effect, Flight, Direction, dir_in, dir_out, Mode, idle, scan_in, scan_out, Reply, is_idle,
  mutate, check_succeeded, check_failed, tick, land, initial,
}

pub data Event : Type 0 where
  pick : Mode → Event
  cancel_scan open_manual close_manual : Event
  type_search : String → Event
  pick_manual : Employee → Event
  confirm_cancel : Event
  confirm : (frame : Option String) → Event
  tick_due : (frame : Option String) → Event
  reply_arrives : (now : ℕ) → (frame : Option String) → Reply → Event
  older_reply_arrives : (now : ℕ) → (frame : Option String) → Reply → Event
  check_ok : (latest : Bool) → AttendanceResponse → Direction → Event
  check_error : (latest : Bool) → (msg : String) → Event
  result_continue reject_close reject_timeout scan_timeout : Event
  error_close error_timeout match_name_timeout : Event
  employees_load : List Employee → Event
  rerender : Event  -- for another reason: `meQ`, the store of the session, the language

-- The direction of a confirmation in the manual flow.
unfoldable pub confirm_direction : Mode → Employee → Direction
confirm_direction scan_out emp = dir_out
confirm_direction scan_in emp = dir_in
confirm_direction idle emp = if emp.is_currently_in then dir_out else dir_in

unfoldable pub confirmed : Option String → Screen → Screen × List Effect
unfolding confirm_direction mutate
confirmed frame s = elim s.confirm_emp [
  | none ↦ (s, [])
  | some emp ↦
      if s.is_pending
      then (s, [])
      else mutate emp (confirm_direction s.mode emp) (not (is_idle s.mode)) frame s
]

unfoldable pub arrived : ℕ → Option String → Reply → Screen → Screen × List Effect
unfolding land
arrived now frame reply s = elim s.flight [
  | none ↦ (s, [])
  | some f ↦ land now frame reply f (record s { flight = none })
]

-- The reply to a request that was on its way when a later one was sent.
unfoldable pub older_landed :
    ℕ → Option String → Reply → List Flight → Screen → Screen × List Effect
unfolding land
older_landed now frame reply [] s = (s, [])
older_landed now frame reply (f ∷ fs) s = land now frame reply f (record s { others = fs })

unfoldable pub older_arrived : ℕ → Option String → Reply → Screen → Screen × List Effect
unfolding older_landed
older_arrived now frame reply s = older_landed now frame reply s.others s

abbrev pub same_mode : Mode → Mode → Bool
same_mode idle idle = true
same_mode scan_in scan_in = true
same_mode scan_out scan_out = true
same_mode _ _ = false

abbrev pub same_bool : Bool → Bool → Bool
same_bool true b = b
same_bool false b = not b

abbrev pub cancel : Option Flight → Option Flight
cancel none = none
cancel (some f) = some (record f { cancelled = true })

abbrev pub same_option : Option String → Option String → Bool
same_option none none = true
same_option none (some t) = false
same_option (some s) none = false
same_option (some s) (some t) = s === t

-- Whether no state cell has a new value, so that the page is not rendered. A request that is not
-- cancelled was sent while all the overlays were absent, so their presence is all that has to be
-- compared.
unfoldable pub same_render : Screen → Screen → Bool
same_render s t =
    same_mode s.mode t.mode
    && (same_bool (is_some s.confirm_emp) (is_some t.confirm_emp)
        && (same_bool (is_some s.result) (is_some t.result)
            && (same_bool (is_some s.optimistic) (is_some t.optimistic)
                && (same_bool s.reject_shown t.reject_shown
                    && (same_bool s.manual_open t.manual_open
                        && (same_bool s.scanning t.scanning
                            && (same_bool s.is_pending t.is_pending
                                && (s.search === t.search
                                    && (same_option s.error_msg t.error_msg
                                        && same_option s.last_match_name t.last_match_name)))))))))

abbrev pub cancel_all : List Flight → List Flight
cancel_all [] = []
cancel_all (f ∷ fs) = record f { cancelled = true } ∷ cancel_all fs

unfoldable pub cancelled : Screen → Screen
cancelled s = record s { flight = cancel s.flight; others = cancel_all s.others }

unfoldable pub commit : Screen → Screen → Screen
unfolding same_render cancelled
commit s t = if same_render s t then t else cancelled t

unfoldable pub handle : Event → Screen → Screen × List Effect
unfolding confirmed arrived older_arrived check_succeeded check_failed tick cancelled
handle (pick m) s = (if is_idle s.mode then record s { mode = m } else s, [])
handle cancel_scan s = (if is_idle s.mode then s else record s { mode = idle }, [])
handle open_manual s = (if is_idle s.mode then s else record s { manual_open = true }, [])
handle close_manual s =
    (if s.manual_open then record s { manual_open = false; search = "" } else s, [])
handle (type_search q) s = (if s.manual_open then record s { search = q } else s, [])
handle (pick_manual emp) s = (if s.manual_open then record s { confirm_emp = some emp } else s, [])
handle confirm_cancel s = (if s.is_pending then s else record s { confirm_emp = none }, [])
handle (confirm frame) s = confirmed frame s
handle (tick_due frame) s = tick frame s
handle (reply_arrives now frame reply) s = arrived now frame reply s
handle (older_reply_arrives now frame reply) s = older_arrived now frame reply s
handle (check_ok latest response dir) s = check_succeeded latest response dir s
handle (check_error latest msg) s = check_failed latest msg s
handle result_continue s =
    (if is_some s.result then record s { result = none; mode = idle } else s, [])
handle reject_close s = (record s { reject_shown = false }, [])
handle reject_timeout s =
    (if s.reject_shown then record s { reject_shown = false; mode = idle } else s, [])
handle scan_timeout s = (record s { mode = idle }, [])
handle error_close s = (record s { error_msg = none }, [])
handle error_timeout s = (record s { error_msg = none }, [])
handle match_name_timeout s = (record s { last_match_name = none }, [])
handle (employees_load es) s = (cancelled (record s { employees = es }), [])
handle rerender s = (cancelled s, [])

unfoldable pub step : Event → Screen → Screen × List Effect
unfolding handle commit
step e s = let (t, effects) = handle e s in (commit s t, effects)

unfoldable pub run : List Event → Screen → Screen
run [] s = s
run (e ∷ es) s = run es (step e s).0

-- The states that the page can be in.
pub data Reach : Screen → Type 0 where
  start : Reach initial
  next : {s : Screen} → Reach s → (e : Event) → Reach (step e s).0
