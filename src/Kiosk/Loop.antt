-- ===== src/Kiosk/Loop.antt =====
-- The recognize loop: one request at a time, and none of its results is used after the operator has
-- left the view that started it (kiosk-web/src/pages/MainPage.tsx).
use hr_profi_uz.Common.{
  ℕ, String, Bool, true, false, ◌≡◌, Option, none, some, List, [], ◌∷◌, arith, is_some,
}
use hr_profi_uz.Kiosk.Screen.{
  Screen, Flight, Effect, recognize, post_check, speak, refetch_employees, Reply, direction_of,
  path_of, is_idle,
}
use hr_profi_uz.Kiosk.Machine.{Event, reply_arrives, step, Reach, start, next, cancelled}
use hr_profi_uz.Kiosk.Valid.{IsValid, initial-IsValid, step-IsValid}

-- In every state that the page can reach, no two recognize requests are on their way, and the flag of the
-- loop tells whether one is; if it is not cancelled, it belongs to the mode on the screen, with no overlay
-- up; and the count of doubtful frames is below three.
pub Reach-IsValid : (s : Screen) → Reach s → IsValid s
Reach-IsValid _ start = initial-IsValid
Reach-IsValid _ (next {s} r e) = step-IsValid e s (Reach-IsValid s r)

-- The path and the employee of the first check that a handler posts.
abbrev pub first_post : List Effect → Option (String × String)
first_post [] = none
first_post (post_check path id image ∷ effects) = some (path, id)
first_post (recognize frame ∷ effects) = first_post effects
first_post (speak text lang ∷ effects) = first_post effects
first_post (refetch_employees ∷ effects) = first_post effects

reply_posts_of_IsValid :
    (s : Screen) (now : ℕ) (frame : Option String) (reply : Reply) (path id : String)
    → IsValid s
    → first_post (step (reply_arrives now frame reply) s).1 ≡ some (path, id)
    → (is_idle s.mode ≡ false)
      × (path ≡ path_of (direction_of s.mode))
      × (is_some s.confirm_emp ≡ false)
      × (s.manual_open ≡ false)
unfolding step
reply_posts_of_IsValid s now frame reply path id v h = ground arith

-- When a recognize reply makes a reachable page post a check, the page is in a scan mode, the check goes
-- to the path of that mode's direction, and neither the manual sheet nor a confirmation is open.
pub reply_posts_direction :
    (s : Screen) (now : ℕ) (frame : Option String) (reply : Reply) (path id : String)
    → Reach s
    → first_post (step (reply_arrives now frame reply) s).1 ≡ some (path, id)
    → (is_idle s.mode ≡ false)
      × (path ≡ path_of (direction_of s.mode))
      × (is_some s.confirm_emp ≡ false)
      × (s.manual_open ≡ false)
reply_posts_direction s now frame reply path id r h =
    reply_posts_of_IsValid s now frame reply path id (Reach-IsValid s r) h

-- The only request on its way is `f`, which is cancelled.
pub record Held (f : Flight) (t : Screen) : Type 0 where
  pub held : t.flight ≡ some (record f { cancelled = true })
  pub waiting : t.recognizing ≡ true
  pub alone : t.others ≡ []

abbrev pub is_reply : Event → Bool
is_reply (reply_arrives now frame reply) = true
is_reply _ = false

-- What a reply can touch on the page is as it was.
pub record IsUntouched (t u : Screen) : Type 0 where
  pub optimistic : u.optimistic ≡ t.optimistic
  pub reject_shown : u.reject_shown ≡ t.reject_shown
  pub cooldown : u.cooldown ≡ t.cooldown
  pub streak : u.low_confidence_streak ≡ t.low_confidence_streak
  pub match_name : u.last_match_name ≡ t.last_match_name
  pub pending : u.is_pending ≡ t.is_pending
