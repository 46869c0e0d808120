-- ===== src/Departments/Cycles.antt =====
-- The parents that the form offers make no cycle
-- (admin-web/src/pages/app/departments/DepartmentForm.tsx).
use hr_profi_uz.Departments.Form.{Department}
use hr_profi_uz.Departments.Picker.{member, children, explore, forbidden_ids, parent_options}
use hr_profi_uz.Departments.Visit.{missing}
use hr_profi_uz.Departments.Closure.{
  parent_is, is_child, children_lem, ids_of, child-member, All-of-member, member_head, or_cases,
  explore_found, explore_sound, explore_grows, explore_closed,
}
use hr_profi_uz.Common.{
  String, List, none, some, Bool, true, false, [], ◌∷◌, ◌===◌, ◌&&◌, not, is_blank, if◌then◌else◌,
  length, ◌+◌, ◌≡◌, ◌≤◌, refl, arith, eq_iff, inl, inr, All, Bool-cases, sort_by-All, sym, ◌∙◌,
  subst, ◌↔◌, ◌||◌, filter_by-All_test,
}

-- `x` is the department `top`, or stands below it.
pub data Below (ds : List Department) (top : String) : String → Type 0 where
  itself : {x : String} → top ≡ x → Below ds top x
  child : {p x : String} → Below ds top p → is_child ds p x ≡ true → Below ds top x

missing_bound : (ids out : List String) → missing ids out ≤ length ids
missing_bound [] out = omega arith
missing_bound (i ∷ ids) out = ground (arith, missing_bound ids out)

length-ids_of : (ds : List Department) → length (ids_of ds) ≡ length ds
length-ids_of [] = refl
length-ids_of (d ∷ ds) = omega (arith, length-ids_of ds)

module _ (ds : List Department) (editing : String) where
  children_known : (p : String) → All (λ c. member c (ids_of ds) ≡ true) (children ds p)
  children_known p =
      All-of-member (λ c. member c (ids_of ds) ≡ true) (children ds p)
        (λ x m. child-member ds p x (sym (children_lem ds p x) ∙ m))

  -- The loop comes to its end, and the set holds exactly the department and those below it.
  found :
      (res : List String) × (explore (children ds) (length ds + 2) (editing ∷ []) (editing ∷ [])
        ≡ some res)
  found =
      explore_found (children ds) (ids_of ds) children_known (length ds + 2) (editing ∷ [])
        (editing ∷ []) (omega (arith, missing_bound (ids_of ds) (editing ∷ []), length-ids_of ds))

  forbidden_found : is_blank editing ≡ false → forbidden_ids ds (some editing) ≡ found.0
  unfolding forbidden_ids
  forbidden_found full = ground (arith, full, found.1)

  only_editing : (x : String) → member x (editing ∷ []) ≡ true → Below ds editing x
  unfolding member
  only_editing x m = itself ((eq_iff editing x).0 (ground (arith, m)))

  goes_down :
      (p x : String) → Below ds editing p → member x (children ds p) ≡ true → Below ds editing x
  goes_down p x above m = child above (sym (children_lem ds p x) ∙ m)

  found_sound : (x : String) → member x found.0 ≡ true → Below ds editing x
  found_sound x m =
      explore_sound (children ds) (Below ds editing) goes_down (length ds + 2) (editing ∷ [])
        (editing ∷ []) found.0 found.1 only_editing only_editing x m

  found_complete : (x : String) → Below ds editing x → member x found.0 ≡ true
  found_complete x (itself e) =
      explore_grows (children ds) (length ds + 2) (editing ∷ []) (editing ∷ []) found.0 found.1 x
        (subst (λ z. member z (editing ∷ []) ≡ true) e (member_head editing []))
  found_complete x (child {p = p} above below) =
      explore_closed (children ds) (length ds + 2) (editing ∷ []) (editing ∷ []) found.0 found.1
        (λ a b m n. inl m) p x (found_complete p above) (children_lem ds p x ∙ below)

  -- When the id of the department that is edited is not blank, the set of the forbidden parents holds
  -- exactly that department and all that stand below it, however deep, also where the departments run
  -- in a circle.
  pub forbidden_ids_exact :
      (x : String)
      → is_blank editing ≡ false
      → Below ds editing x ↔ (member x (forbidden_ids ds (some editing)) ≡ true)
  forbidden_ids_exact x full = rw (forbidden_found full) (found_complete x, found_sound x)

-- The departments after `editing` was put under `p`.
abbrev pub moved : String → String → List Department → List Department
moved editing p [] = []
moved editing p (d ∷ ds) =
    (if d.id === editing then record d { parent_id = some p } else d) ∷ moved editing p ds

-- Some department of the chain above `top` is `top` itself.
abbrev pub IsCircular : List Department → String → Type 0
IsCircular ds top = (q : String) × Below ds top q × (is_child ds q top ≡ true)

moved-others :
    (editing p q x : String) (ds : List Department)
    → (editing === x) ≡ false
    → is_child (moved editing p ds) q x ≡ is_child ds q x
moved-others editing p q x [] h = refl
moved-others editing p q x (d ∷ ds) h = elim (Bool-cases (d.id === editing)) [
  | inl e ↦
      let other : (d.id === x) ≡ false =
        subst (λ z. (z === x) ≡ false) (sym ((eq_iff d.id editing).0 e)) h in
      ground (arith, e, other, moved-others editing p q x ds h)
  | inr e ↦ ground (arith, e, moved-others editing p q x ds h)
]

offered_is_child :
    (p q : String) (b : Bool)
    → (parent_is q (if is_blank p then none else some p) && b) ≡ true
    → p ≡ q
offered_is_child p q b h = elim (Bool-cases (is_blank p)) [
  | inl e ↦ ground (arith, e, h)
  | inr e ↦ (eq_iff p q).0 (ground (arith, e, h))
]

moved_self :
    (editing p q : String) (ds : List Department)
    → is_child (moved editing p ds) q editing ≡ true
    → p ≡ q
moved_self editing p q [] h = cc
moved_self editing p q (d ∷ ds) h = elim (Bool-cases (d.id === editing)) [
  | inl e ↦
      let offered = parent_is q (if is_blank p then none else some p) && d.id === editing in
      let split : (offered || is_child (moved editing p ds) q editing) ≡ true =
        ground (arith, e, h) in
      elim (or_cases offered (is_child (moved editing p ds) q editing) split) [
        | inl here ↦ offered_is_child p q (d.id === editing) here
        | inr later ↦ moved_self editing p q ds later
      ]
  | inr e ↦ moved_self editing p q ds (ground (arith, e, h))
]

moved-Below :
    (editing p : String) (ds : List Department) (x : String)
    → Below (moved editing p ds) editing x
    → Below ds editing x
moved-Below editing p ds x (itself e) = itself e
moved-Below editing p ds x (child {p = q} above below) = elim (Bool-cases (editing === x)) [
  | inl e ↦ itself ((eq_iff editing x).0 e)
  | inr e ↦ child (moved-Below editing p ds q above) (sym (moved-others editing p q x ds e) ∙ below)
]

module _ (name_le : String → String → Bool) (ds : List Department) (branch editing : String) where
  -- A parent that the form may offer.
  abbrev pub IsGoodParent : Department → Type 0
  IsGoodParent d =
      (d.branch_id ≡ branch) × (d.is_active ≡ true) × ¬ IsCircular (moved editing d.id ds) editing

  stays_acyclic :
      (p : String)
      → is_blank editing ≡ false
      → member p (forbidden_ids ds (some editing)) ≡ false
      → ¬ IsCircular (moved editing p ds) editing
  stays_acyclic p full free (q, above, edge) =
      let same = moved_self editing p q ds edge in
      let within : Below ds editing p =
        subst (Below ds editing) (sym same) (moved-Below editing p ds q above) in
      ground (arith, free, (forbidden_ids_exact ds editing p full).0 within)

  offered-IsGoodParent :
      is_blank editing ≡ false
      → (d : Department)
      → (d.branch_id === branch
          && (d.is_active && not (member d.id (forbidden_ids ds (some editing)))))
        ≡ true
      → IsGoodParent d
  offered-IsGoodParent full d h = (
    (eq_iff d.branch_id branch).0 (ground (arith, h)),
    ground (arith, h),
    stays_acyclic d.id full (ground (arith, h)),
  )

  -- Every parent that the form offers for a department whose id is not blank is an active department
  -- of the chosen branch, and putting the department under it makes no circle above it.
  pub parent_options_acyclic :
      is_blank editing ≡ false → All IsGoodParent (parent_options name_le ds branch (some editing))
  unfolding parent_options
  parent_options_acyclic full = elim (Bool-cases (is_blank branch)) [
    | inl e ↦ rw e tt
    | inr e ↦ rw e (
        sort_by-All (λ a b. name_le a.name b.name) IsGoodParent _
          (filter_by-All_test IsGoodParent _ ds (offered-IsGoodParent full)))
  ]
