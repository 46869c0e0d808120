-- ===== src/Routes/SignIn.antt =====
-- Every order in which the answers of a sign-in can arrive (admin-web/src/pages/LoginPage.tsx,
-- admin-web/src/App.tsx).
use hr_profi_uz.Routes.Landing.{at_path_login, signed_out_lands}
use hr_profi_uz.Routes.Guard.{at_path, go, follow, shows}
use hr_profi_uz.Session.{Session, set_user, set_tokens, TokenPair, logout, truthy}
use hr_profi_uz.Common.{
  List, Bool, map, ◌≡◌, if◌then◌else◌, ◌∷◌, some, none, [], refl, true, false, ◌++◌, ◌⊎◌, ap, inl,
  inr, String, ◌∙◌, Option, All, filter_by, is_blank,
}
use hr_profi_uz.Users.Form.{User}
use hr_profi_uz.Routes.Table.{Route, fits, login_page}
use hr_profi_uz.Routes.Login.{
  Answer, answers, rehydrated, tokens, is_admin_role, profile, on_profile,
}

-- The answers to the effect, each a failure or the profile of the user.
abbrev pub effect_answers : User → List Bool → List Answer
effect_answers u oks = map (λ ok. rehydrated (if ok then some u else none)) oks

-- A sign-in between answers to the effect that come before and after its profile.
abbrev pub sign_in : TokenPair → User → List Bool → List Bool → List Answer
sign_in pair u before after =
    tokens pair ∷ effect_answers u before ++ profile (some u) ∷ effect_answers u after

-- The effect's answers leave the user as it was or set it, and change nothing else.
answers-effect_lem :
    (u : User) (oks : List Bool) (rest : List Answer) (s : Session User)
    → (answers (effect_answers u oks ++ rest) s ≡ answers rest s)
      ⊎ (answers (effect_answers u oks ++ rest) s ≡ answers rest (set_user (some u) s))
unfolding set_user
answers-effect_lem u [] rest s = inl refl
answers-effect_lem u (false ∷ oks) rest s = answers-effect_lem u oks rest s
answers-effect_lem u (true ∷ oks) rest s =
    elim (answers-effect_lem u oks rest (set_user (some u) s)) [ inl e ↦ inr e | inr e ↦ inr e ]

-- Once the profile is there, they change nothing at all.
answers_again :
    (u : User) (oks : List Bool) (access refresh : Option String)
    → let s : Session User = record {
      access_token = access;
      refresh_token = refresh;
      user = some u;
    } in
      answers (effect_answers u oks) s ≡ s
unfolding set_user
answers_again u [] access refresh = refl
answers_again u (true ∷ oks) access refresh = answers_again u oks access refresh
answers_again u (false ∷ oks) access refresh = answers_again u oks access refresh

answers-access_token :
    (u : User) (oks : List Bool) (s : Session User)
    → (answers (effect_answers u oks) s).access_token ≡ s.access_token
unfolding set_user
answers-access_token u [] s = refl
answers-access_token u (true ∷ oks) s = answers-access_token u oks (set_user (some u) s)
answers-access_token u (false ∷ oks) s = answers-access_token u oks s

on_profile-accepted :
    (u : User) (s : Session User)
    → is_admin_role u.role ≡ true
    → on_profile (some u) s ≡ set_user (some u) s
on_profile-accepted u s h = rw h refl

on_profile-rejected :
    (u : User) (s : Session User) → is_admin_role u.role ≡ false → on_profile (some u) s ≡ logout s
on_profile-rejected u s h = rw h refl

-- After the sign-in of a role that may use the panel the session holds the tokens and the profile,
-- in whatever order the sign-in's answers and those to the effect arrive, when the effect's answers
-- are failures or the profile of the same user.
accepted_sign_in :
    (pair : TokenPair) (u : User) (before after : List Bool) (s : Session User)
    → is_admin_role u.role ≡ true
    → answers (sign_in pair u before after) s ≡ record {
      access_token = some pair.access_token;
      refresh_token = some pair.refresh_token;
      user = some u;
    }
unfolding set_tokens set_user
accepted_sign_in pair u before after s h =
    let end = answers_again u after (some pair.access_token) (some pair.refresh_token) in
    elim (answers-effect_lem u before (profile (some u) ∷ effect_answers u after)
      (set_tokens pair s)) [
        | inl e ↦ e ∙ ap (answers (effect_answers u after)) (on_profile-accepted u _ h) ∙ end
        | inr e ↦ e ∙ ap (answers (effect_answers u after)) (on_profile-accepted u _ h) ∙ end
      ]

rejected-access_token :
    (pair : TokenPair) (u : User) (before after : List Bool) (s : Session User)
    → is_admin_role u.role ≡ false
    → (answers (sign_in pair u before after) s).access_token ≡ none
unfolding set_tokens set_user logout
rejected-access_token pair u before after s h =
    let end : (x : Session User)
        → (answers (effect_answers u after) (on_profile (some u) x)).access_token ≡ none =
      λ x. answers-access_token u after _ ∙ ap Session.access_token (on_profile-rejected u x h) in
    elim (answers-effect_lem u before (profile (some u) ∷ effect_answers u after)
      (set_tokens pair s)) [
        | inl e ↦ ap Session.access_token e ∙ end (set_tokens pair s)
        | inr e ↦ ap Session.access_token e ∙ end (set_user (some u) (set_tokens pair s))
      ]

module _ (pick : List Route → List String → Option Route)
    (pick_listed : (P : Route → Type 0) (rs : List Route) (path : List String) (r : Route)
      → All P rs
      → pick rs path ≡ some r
      → P r)
    (pick_only : (rs : List Route) (path : List String) (r : Route)
      → filter_by (λ r. fits r.path path) rs ≡ r ∷ []
      → pick rs path ≡ some r) where
  -- When only routes of the table are picked, and where one route alone fits this one is, the sign-in
  -- of a role that may not use the panel leaves its form as the tokens arrive, if the access token is
  -- not blank, and ends without an access token, so that every path leads to the sign-in page, in
  -- whatever order the answers arrive, if the effect's answers are failures or the profile of the same
  -- user.
  pub rejected_sign_in :
      (pair : TokenPair) (u : User) (before after : List Bool) (s : Session User)
      (path : List String)
      → is_admin_role u.role ≡ false
      → is_blank pair.access_token ≡ false
      → (at_path pick (set_tokens pair s) ("login" ∷ []) ≡ go [])
        × (follow pick 2 (answers (sign_in pair u before after) s) (go path)
            ≡ some (shows login_page))
  unfolding set_tokens
  rejected_sign_in pair u before after s path h ht = (
    at_path_login pick pick_listed pick_only (set_tokens pair s) ∙ rw ht refl,
    signed_out_lands pick pick_listed pick_only (answers (sign_in pair u before after) s) path
        (ap truthy (rejected-access_token pair u before after s h)),
  )
