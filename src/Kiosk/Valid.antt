-- ===== src/Kiosk/Valid.antt =====
-- The invariant of the recognize loop, and that every event keeps it
-- (kiosk-web/src/pages/MainPage.tsx).
use hr_profi_uz.Common.{
  ℕ, String, Bool, true, false, ◌≡◌, ◌⊎◌, Option, none, some, [], ◌<◌, arith, is_some, ◌&&◌, ◌∙◌,
  inl, Bool-cases, refl, inr, sym, ap, subst,
}
use hr_profi_uz.Kiosk.Screen.{Mode, Screen, Flight, Reply, direction_of, is_idle, initial, tick}
use hr_profi_uz.Kiosk.Machine.{
  Event, tick_due, reply_arrives, employees_load, rerender, step, older_reply_arrives, cancel,
  older_arrived, older_landed, same_bool, same_mode, arrived, cancelled, handle, commit,
  same_render, cancel_all,
}

-- What a live request knows of the page: the mode that the operator sees is the one that it was sent
-- for, and no overlay is up.
pub record IsLive (s : Screen) (f : Flight) : Type 0 where
  pub scanning_mode : is_idle s.mode ≡ false
  pub direction : f.direction ≡ direction_of s.mode
  pub no_confirm : is_some s.confirm_emp ≡ false
  pub no_result : is_some s.result ≡ false
  pub no_optimistic : is_some s.optimistic ≡ false
  pub no_reject : s.reject_shown ≡ false
  pub no_manual : s.manual_open ≡ false

-- A request on its way is cancelled or live.
abbrev pub IsCurrent : Option Flight → Screen → Type 0
IsCurrent none s = Unit
IsCurrent (some f) s = (f.cancelled ≡ true) ⊎ IsLive s f

pub record IsValid (s : Screen) : Type 0 where
  pub one_request : s.recognizing ≡ is_some s.flight
  pub no_older : s.others ≡ []
  pub current : IsCurrent s.flight s
  pub streak_below : s.low_confidence_streak < 3

pub initial-IsValid : IsValid initial
unfolding initial
initial-IsValid = ground arith

both : (a b : Bool) → (a && b) ≡ true → (a ≡ true) × (b ≡ true)
both true b h = (refl, h)
both false b h = ground (arith, h)

same_mode-eq : (a b : Mode) → same_mode a b ≡ true → a ≡ b
same_mode-eq Mode.idle Mode.idle h = refl
same_mode-eq Mode.scan_in Mode.scan_in h = refl
same_mode-eq Mode.scan_out Mode.scan_out h = refl
same_mode-eq Mode.idle Mode.scan_in h = ground (arith, h)
same_mode-eq Mode.idle Mode.scan_out h = ground (arith, h)
same_mode-eq Mode.scan_in Mode.idle h = ground (arith, h)
same_mode-eq Mode.scan_in Mode.scan_out h = ground (arith, h)
same_mode-eq Mode.scan_out Mode.idle h = ground (arith, h)
same_mode-eq Mode.scan_out Mode.scan_in h = ground (arith, h)

same_bool-eq : (a b : Bool) → same_bool a b ≡ true → b ≡ a
same_bool-eq true b h = h
same_bool-eq false b h = ground (arith, h)

-- A live request stays live while the page is not rendered.
IsLive-same_render : (s t : Screen) (f : Flight) → same_render s t ≡ true → IsLive s f → IsLive t f
unfolding same_render
IsLive-same_render s t f h v =
    let (mode, h1) = both _ _ h in
    let (confirmation, h2) = both _ _ h1 in
    let (shown, h3) = both _ _ h2 in
    let (expected, h4) = both _ _ h3 in
    let (reject, h5) = both _ _ h4 in
    let (manual, _) = both _ _ h5 in
    let m = same_mode-eq s.mode t.mode mode in
    record {
      scanning_mode = subst (λ x. is_idle x ≡ false) m v.scanning_mode;
      direction = v.direction ∙ ap direction_of m;
      no_confirm = same_bool-eq (is_some s.confirm_emp) _ confirmation ∙ v.no_confirm;
      no_result = same_bool-eq (is_some s.result) _ shown ∙ v.no_result;
      no_optimistic = same_bool-eq (is_some s.optimistic) _ expected ∙ v.no_optimistic;
      no_reject = same_bool-eq s.reject_shown _ reject ∙ v.no_reject;
      no_manual = same_bool-eq s.manual_open _ manual ∙ v.no_manual;
    }

IsCurrent-same_render :
    (s t : Screen) (o : Option Flight) → same_render s t ≡ true → IsCurrent o s → IsCurrent o t
IsCurrent-same_render s t none h v = tt
IsCurrent-same_render s t (some f) h (inl c) = inl c
IsCurrent-same_render s t (some f) h (inr v) = inr (IsLive-same_render s t f h v)

cancel-some : (o : Option Flight) → is_some (cancel o) ≡ is_some o
cancel-some none = refl
cancel-some (some f) = refl

cancel-IsCurrent : (s : Screen) (o : Option Flight) → IsCurrent (cancel o) s
cancel-IsCurrent s none = tt
cancel-IsCurrent s (some f) = inl refl

-- Cancelling what is on its way keeps a page valid, whatever its request was.
cancelled-IsValid :
    (t : Screen)
    → t.recognizing ≡ is_some t.flight
    → t.others ≡ []
    → t.low_confidence_streak < 3
    → IsValid (cancelled t)
unfolding cancelled
cancelled-IsValid t one older streak = record {
  one_request = one ∙ sym (cancel-some t.flight);
  no_older = ap cancel_all older;
  current = cancel-IsCurrent (cancelled t) t.flight;
  streak_below = streak;
}

commit-IsValid :
    (s t : Screen)
    → t.recognizing ≡ is_some t.flight
    → t.others ≡ []
    → t.low_confidence_streak < 3
    → (same_render s t ≡ true → IsCurrent t.flight t)
    → IsValid (commit s t)
unfolding commit
commit-IsValid s t one older streak current = elim (Bool-cases (same_render s t)) [
  | inl e ↦
      rw e
        (record { one_request = one; no_older = older; current = current e; streak_below = streak })
  | inr e ↦ rw e (cancelled-IsValid t one older streak)
]

-- What most events leave alone: the requests, the flag of the loop and the count of doubtful frames.
pub record IsQuiet (s t : Screen) : Type 0 where
  pub same_flight : t.flight ≡ s.flight
  pub same_others : t.others ≡ s.others
  pub same_flag : t.recognizing ≡ s.recognizing
  pub same_streak : t.low_confidence_streak ≡ s.low_confidence_streak

-- The events other than ticks, replies and renders for another reason.
abbrev pub is_quiet : Event → Bool
is_quiet (tick_due frame) = false
is_quiet (reply_arrives now frame reply) = false
is_quiet (older_reply_arrives now frame reply) = false
is_quiet (employees_load es) = false
is_quiet rerender = false
is_quiet _ = true

pub handle-IsQuiet : (e : Event) (s : Screen) → is_quiet e ≡ true → IsQuiet s (handle e s).0
unfolding handle
handle-IsQuiet (tick_due frame) s h = ground (arith, h)
handle-IsQuiet (reply_arrives now frame reply) s h = ground (arith, h)
handle-IsQuiet (older_reply_arrives now frame reply) s h = ground (arith, h)
handle-IsQuiet (employees_load es) s h = ground (arith, h)
handle-IsQuiet rerender s h = ground (arith, h)
handle-IsQuiet _ s h = ground arith

quiet-IsValid : (s t : Screen) → IsValid s → IsQuiet s t → IsValid (commit s t)
quiet-IsValid s t v q =
    commit-IsValid s t (q.same_flag ∙ v.one_request ∙ ap is_some (sym q.same_flight))
      (q.same_others ∙ v.no_older) (subst (λ n. n < 3) (sym q.same_streak) v.streak_below)
      (λ e.
        subst (λ o. IsCurrent o t) (sym q.same_flight)
          (IsCurrent-same_render s t s.flight e v.current))

committed-IsValid : (s t : Screen) → IsValid t → IsValid (commit s t)
committed-IsValid s t v =
    commit-IsValid s t v.one_request v.no_older v.streak_below (λ e. v.current)

tick-IsValid : (frame : Option String) (s : Screen) → IsValid s → IsValid (tick frame s).0
unfolding tick
tick-IsValid frame s v = ground arith

arrived-IsValid :
    (now : ℕ) (frame : Option String) (reply : Reply) (s : Screen)
    → IsValid s
    → IsValid (arrived now frame reply s).0
unfolding arrived
arrived-IsValid now frame reply s v = ground arith

older_arrived-IsValid :
    (now : ℕ) (frame : Option String) (reply : Reply) (s : Screen)
    → IsValid s
    → IsValid (older_arrived now frame reply s).0
unfolding older_arrived older_landed
older_arrived-IsValid now frame reply s v =
    subst (λ fs. IsValid (older_landed now frame reply fs s).0) (sym v.no_older) v

pub step-IsValid : (e : Event) (s : Screen) → IsValid s → IsValid (step e s).0
unfolding step handle
step-IsValid (tick_due frame) s v = committed-IsValid s _ (tick-IsValid frame s v)
step-IsValid (reply_arrives now frame reply) s v =
    committed-IsValid s _ (arrived-IsValid now frame reply s v)
step-IsValid (older_reply_arrives now frame reply) s v =
    committed-IsValid s _ (older_arrived-IsValid now frame reply s v)
step-IsValid (employees_load es) s v =
    committed-IsValid s _
      (cancelled-IsValid (record s { employees = es }) v.one_request v.no_older v.streak_below)
step-IsValid rerender s v =
    committed-IsValid s _ (cancelled-IsValid s v.one_request v.no_older v.streak_below)
step-IsValid e s v = quiet-IsValid s (handle e s).0 v (handle-IsQuiet e s refl)
