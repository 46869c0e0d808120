-- ===== src/Routes/Router.antt =====
-- A concrete choice among the routes for the tests: the first one that fits.
use hr_profi_uz.Common.{
  List, String, Option, filter_by, All, ◌≡◌, find_by, ◌∷◌, some, arith, [], Bool-cases, inl, subst,
  inr, ◌∙◌, none, Bool, ap, refl, if◌then◌else◌,
}
use mathlib.Core.Option.{some-injective}
use hr_profi_uz.Routes.Table.{Route, fits}

unfoldable pub first_fit : List Route → List String → Option Route
first_fit rs path = find_by (λ r. fits r.path path) rs

-- The first of some routes.
abbrev first : List Route → Option Route
first [] = none
first (r ∷ rs) = some r

find_by-first : (p : Route → Bool) (rs : List Route) → find_by p rs ≡ first (filter_by p rs)
find_by-first p [] = refl
find_by-first p (x ∷ xs) = elim (Bool-cases (p x)) [
  | inl e ↦ rw e refl
  | inr e ↦ rw e (find_by-first p xs)
]

pub first_fit-only :
    (rs : List Route) (path : List String) (r : Route)
    → filter_by (λ r. fits r.path path) rs ≡ r ∷ []
    → first_fit rs path ≡ some r
unfolding first_fit
first_fit-only rs path r h = find_by-first (λ r. fits r.path path) rs ∙ ap first h

pub first_fit-listed :
    (P : Route → Type 0) (rs : List Route) (path : List String) (r : Route)
    → All P rs
    → first_fit rs path ≡ some r
    → P r
unfolding first_fit
first_fit-listed P [] path r hs h = ground (arith, h)
first_fit-listed P (x ∷ xs) path r (p, ps) h =
    let Found : Bool → Type 0 =
      λ b. (if b then some x else find_by (λ r. fits r.path path) xs) ≡ some r in
    elim (Bool-cases (fits x.path path)) [
      | inl e ↦ subst P (some-injective x r (subst Found e h)) p
      | inr e ↦ first_fit-listed P xs path r ps (subst Found e h)
    ]
