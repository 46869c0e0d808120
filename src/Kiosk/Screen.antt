-- ===== src/Kiosk/Screen.antt =====
-- The state of `MainPage` and its handlers (kiosk-web/src/pages/MainPage.tsx). A `useState` cell or a
-- `useRef` is a field; a handler returns the new state and the requests and utterances it makes.
use Prim.Native.Char.{code}
use Prim.Native.String
use hr_profi_uz.Common.{
  ℕ, ◌+◌, ◌-◌, String, Bool, true, false, not, ◌&&◌, ◌||◌, Option, none, some, List, [], ◌∷◌, ltb,
  leb, ◌==◌, ◌===◌, if◌then◌else◌, is_blank, is_some, lookup, insert,
}
use hr_profi_uz.Kiosk.Types.{Employee, AttendanceResponse, RecognizeResponse}

abbrev pub per_employee_cooldown_ms : ℕ
per_employee_cooldown_ms = 30_000

abbrev pub reject_after_failures : ℕ
reject_after_failures = 3

-- `"IN" | "OUT"`
pub data Direction : Type 0 where
  dir_in dir_out : Direction

-- `"idle" | "in" | "out"`
pub data Mode : Type 0 where
  idle scan_in scan_out : Mode

-- What a handler does to the outside.
pub data Effect : Type 0 where
  recognize : (frame : String) → Effect
  post_check : (path : String) → (employee_id : String) → (image : Option String) → Effect
  speak : (text : String) → (lang : String) → Effect
  refetch_employees : Effect

-- A recognize request on its way, with what its closure holds: the direction of the effect that
-- started the loop, and the `cancelled` flag that the effect's cleanup sets.
pub record Flight : Type 0 where
  pub direction : Direction
  pub cancelled : Bool

pub record Screen : Type 0 where
  pub mode : Mode
  pub manual_open : Bool
  pub search : String
  pub confirm_emp : Option Employee
  pub optimistic : Option (Employee × Direction)
  pub result : Option (AttendanceResponse × Direction)
  pub reject_shown : Bool
  pub error_msg : Option String
  pub scanning : Bool
  pub last_match_name : Option String
  pub employees : List Employee  -- `employeesQ.data?.items ?? []`
  pub is_pending : Bool  -- `checkMut.isPending`
  pub cooldown : List (String × ℕ)  -- `cooldownRef`
  pub low_confidence_streak : ℕ  -- `lowConfidenceStreakRef`
  pub recognizing : Bool  -- `recognizingRef`
  pub flight : Option Flight  -- the recognize request that was sent last, while it is on its way
  pub others : List Flight  -- those on their way that were sent before it, the last one first

unfoldable pub initial : Screen
initial = record {
  mode = idle;
  manual_open = false;
  search = "";
  confirm_emp = none;
  optimistic = none;
  result = none;
  reject_shown = false;
  error_msg = none;
  scanning = false;
  last_match_name = none;
  employees = [];
  is_pending = false;
  cooldown = [];
  low_confidence_streak = 0;
  recognizing = false;
  flight = none;
  others = [];
}

abbrev pub is_idle : Mode → Bool
is_idle idle = true
is_idle _ = false

abbrev pub direction_of : Mode → Direction
direction_of scan_in = dir_in
direction_of _ = dir_out

abbrev pub has_items : List Employee → Bool
has_items [] = false
has_items (e ∷ es) = true

-- The early returns of the loop's effect: an interval runs exactly when this holds.
unfoldable pub loop_runs : Screen → Bool
loop_runs s =
    not (is_idle s.mode)
    && not (
        is_some s.confirm_emp
        || (is_some s.result || (is_some s.optimistic || (s.reject_shown || s.manual_open))))
    && has_items s.employees

abbrev pub path_of : Direction → String
path_of dir_in = "/kiosks/me/checkin"
path_of dir_out = "/kiosks/me/checkout"

-- `checkMut.mutate`: the request of `mutationFn`; `frame` is what the camera gives at that time.
unfoldable pub mutate : Employee → Direction → Bool → Option String → Screen → Screen × List Effect
mutate emp dir with_selfie frame s = (
  record s { is_pending = true },
  post_check (path_of dir) emp.id (if with_selfie then frame else none) ∷ [],
)

-- `onSuccess`; `latest` says that this is the mutation whose state the page shows.
unfoldable pub check_succeeded :
    Bool → AttendanceResponse → Direction → Screen → Screen × List Effect
check_succeeded latest response dir s = (
  record s {
    confirm_emp = none;
    manual_open = false;
    optimistic = none;
    result = some (response, dir);
    is_pending = if latest then false else s.is_pending;
  },
  refetch_employees ∷ [],
)

-- `onError`; `msg` is the text that `apiErrorMessage` makes.
unfoldable pub check_failed : Bool → String → Screen → Screen × List Effect
check_failed latest msg s = (
  record s {
    optimistic = none;
    error_msg = some msg;
    is_pending = if latest then false else s.is_pending;
  },
  speak "Failed" "en" ∷ [],
)

-- `full_name.split(" ")[0]`: the part before the first space.
unfoldable pub first_name : String → String
first_name String.[] = ""
first_name (String.◌∷◌ c s) =
    let rest = first_name s in if code c == b' ' then "" else String.◌∷◌ c rest

abbrev pub thank_you : Employee → Effect
thank_you emp = speak (String.◌++◌ "Thank you, " (first_name emp.full_name)) "en"

-- `cooldownRef.current.get(emp.id) ?? 0`
abbrev pub or_zero : Option ℕ → ℕ
or_zero none = 0
or_zero (some t) = t

-- `Date.now() - last < PER_EMPLOYEE_COOLDOWN_MS`. Where the clock stands before the stamp the
-- source's difference is negative and the one here is 0: both are below the limit.
unfoldable pub in_cooldown : ℕ → String → Screen → Bool
in_cooldown now id s = ltb (now - or_zero (lookup id s.cooldown)) per_employee_cooldown_ms

-- The branch of `tick` for a match.
unfoldable pub handle_match :
    ℕ → Option String → Direction → Employee → Screen → Screen × List Effect
unfolding in_cooldown mutate
handle_match now frame dir emp s =
    let s' = record s { low_confidence_streak = 0; cooldown = insert emp.id now s.cooldown } in
    if in_cooldown now emp.id s
    then (record s' { last_match_name = some emp.full_name }, thank_you emp ∷ [])
    else (let (s'', posted) =
          mutate emp dir true frame (record s' { optimistic = some (emp, dir) }) in
        (s'', thank_you emp ∷ posted))

-- The branch of `tick` for `reason === "low_confidence"`.
unfoldable pub handle_low_confidence : Screen → Screen × List Effect
handle_low_confidence s =
    if leb reject_after_failures (s.low_confidence_streak + 1)
    then (
      record s { low_confidence_streak = 0; reject_shown = true },
      speak "Authentication failed" "en" ∷ [],
    )
    else (record s { low_confidence_streak = s.low_confidence_streak + 1 }, [])

abbrev pub is_low_confidence : Option String → Bool
is_low_confidence none = false
is_low_confidence (some r) = r === "low_confidence"

unfoldable pub handle_miss : Option String → Screen → Screen × List Effect
unfolding handle_low_confidence
handle_miss reason s =
    if is_low_confidence reason
    then handle_low_confidence s
    else (record s { low_confidence_streak = 0 }, [])

-- The body of `try` in `tick` after the request came back.
unfoldable pub handle_reply :
    ℕ → Option String → Direction → RecognizeResponse → Screen → Screen × List Effect
unfolding handle_match handle_miss
handle_reply now frame dir r s =
    if r.matched
    then elim r.found [
      | none ↦ handle_miss r.reason s
      | some m ↦ handle_match now frame dir m.employee s
    ]
    else handle_miss r.reason s

-- What the recognize request comes back with; `failed` is the `catch`.
pub data Reply : Type 0 where
  failed : Reply
  replied : RecognizeResponse → Reply

abbrev pub older : Option Flight → List Flight → List Flight
older none fs = fs
older (some f) fs = f ∷ fs

-- `tick` up to its `await`; `frame` is what `captureFrame` returns.
unfoldable pub tick : Option String → Screen → Screen × List Effect
unfolding loop_runs
tick none s = (s, [])
tick (some frame) s =
    if loop_runs s && not s.recognizing && not (is_blank frame)
    then (
      record s {
        recognizing = true;
        scanning = true;
        flight = some (record { direction = direction_of s.mode; cancelled = false });
        others = older s.flight s.others;
      },
      recognize frame ∷ [],
    )
    else (s, [])

-- `finally`
unfoldable pub landed : Bool → Screen → Screen
landed cancelled s = record s {
  recognizing = false;
  scanning = if cancelled then s.scanning else false;
}

-- `tick` after its `await`, for the flight `f`, which is no longer on its way.
unfoldable pub land : ℕ → Option String → Reply → Flight → Screen → Screen × List Effect
unfolding landed handle_reply
land now frame failed f s = (landed f.cancelled s, [])
land now frame (replied r) f s =
    if f.cancelled
    then (landed true s, [])
    else (let (s', effects) = handle_reply now frame f.direction r s in (landed false s', effects))
