-- ===== src/Departments/Closure.antt =====
-- The set that `forbiddenIds` computes (admin-web/src/pages/app/departments/DepartmentForm.tsx): the
-- loop ends, and holds a department and all that stand below it.
use hr_profi_uz.Departments.Visit.{missing, visit_measure, visit-out, visit-stack}
use hr_profi_uz.Departments.Form.{Department}
use hr_profi_uz.Departments.Picker.{
  member, children, children_of, add_child, parent_of, or_none, visit, explore,
}
use hr_profi_uz.Common.{
  String, List, Option, none, some, Bool, true, false, [], ◌∷◌, ◌++◌, ◌===◌, ◌||◌, ◌&&◌, not, ℕ,
  lookup, Entries, length, ◌+◌, ◌≡◌, ◌<◌, arith, lookup-insert, eq_iff, inl, inr, All, Bool-cases,
  ap, subst, suc, zero, refl, ◌⊎◌, sym, ◌∙◌,
}

abbrev pub parent_is : String → Option String → Bool
parent_is p none = false
parent_is p (some q) = q === p

-- Whether `x` is the id of a department with the parent `p`.
abbrev pub is_child : List Department → String → String → Bool
is_child [] p x = false
is_child (d ∷ ds) p x = (parent_is p (parent_of d.parent_id) && d.id === x) || is_child ds p x

member-append :
    (x y : String) (xs : List String) → member x (xs ++ y ∷ []) ≡ (member x xs || y === x)
unfolding member
member-append x y [] = ground arith
member-append x y (z ∷ zs) = ground (arith, member-append x y zs)

add_child_lem :
    (q : Option String) (id p x : String) (m : Entries (List String))
    → member x (or_none (lookup p (add_child q id m)))
      ≡ (member x (or_none (lookup p m)) || (parent_is p q && id === x))
unfolding member
add_child_lem none id p x m = ground arith
add_child_lem (some q) id p x m =
    let new = or_none (lookup q m) ++ id ∷ [] in
    let written = lookup-insert q p new m in
    elim (Bool-cases (q === p)) [
      | inl e ↦ ground (
        arith,
        e,
        written,
        member-append x id (or_none (lookup q m)),
        ap (λ (k : String). member x (or_none (lookup k m))) ((eq_iff q p).0 e),
      )
      | inr e ↦ ground (arith, e, written)
    ]

children_of_lem :
    (ds : List Department) (p x : String) (m : Entries (List String))
    → member x (or_none (lookup p (children_of ds m)))
      ≡ (member x (or_none (lookup p m)) || is_child ds p x)
unfolding children_of
children_of_lem [] p x m = ground arith
children_of_lem (d ∷ ds) p x m = ground (
  arith,
  children_of_lem ds p x (add_child (parent_of d.parent_id) d.id m),
  add_child_lem (parent_of d.parent_id) d.id p x m,
)

pub children_lem :
    (ds : List Department) (p x : String) → member x (children ds p) ≡ is_child ds p x
unfolding member lookup
children_lem ds p x = children_of_lem ds p x []

abbrev pub ids_of : List Department → List String
ids_of [] = []
ids_of (d ∷ ds) = d.id ∷ ids_of ds

pub child-member :
    (ds : List Department) (p x : String) → is_child ds p x ≡ true → member x (ids_of ds) ≡ true
unfolding member
child-member [] p x h = cc
child-member (d ∷ ds) p x h = ground (arith, child-member ds p x)

pub All-of-member {ℓ} :
    (P : String → Type ℓ) (xs : List String) → ((x : String) → member x xs ≡ true → P x) → All P xs
unfolding member
All-of-member P [] h = tt
All-of-member P (x ∷ xs) h =
    (h x (ground (arith, eq_iff x x)), All-of-member P xs (λ y k. h y (ground (arith, k))))

pub or_cases : (a b : Bool) → (a || b) ≡ true → (a ≡ true) ⊎ (b ≡ true)
or_cases true b h = inl refl
or_cases false b h = inr h

pub member_head : (x : String) (xs : List String) → member x (x ∷ xs) ≡ true
unfolding member
member_head x xs = ground (arith, eq_iff x x)

member_tail : (x y : String) (xs : List String) → member x xs ≡ true → member x (y ∷ xs) ≡ true
unfolding member
member_tail x y xs h = ground (arith, h)

member_cases :
    (x y : String) (xs : List String) → member x (y ∷ xs) ≡ true → (y ≡ x) ⊎ (member x xs ≡ true)
unfolding member
member_cases x y xs h = elim (or_cases (y === x) (member x xs) h) [
  | inl e ↦ inl ((eq_iff y x).0 e)
  | inr e ↦ inr e
]

nothing_waits : (x : String) → member x [] ≡ true → ⊥
unfolding member
nothing_waits x h = cc

module _ (below : String → List String) where
  pub explore_found :
      (ids : List String)
      → ((p : String) → All (λ c. member c ids ≡ true) (below p))
      → (fuel : ℕ) (out stack : List String) → missing ids out + length stack < fuel
      → (res : List String) × (explore below fuel out stack ≡ some res)
  unfolding explore
  explore_found ids covers zero out stack h = absurd (omega arith)
  explore_found ids covers (suc fuel) out [] h = (out, refl)
  explore_found ids covers (suc fuel) out (id ∷ stack) h =
      explore_found ids covers fuel (visit (below id) out stack).0 (visit (below id) out stack).1
        (omega (arith, visit_measure ids (below id) out stack (covers id)))

  module _ {ℓ} (P : String → Type ℓ)
      (keeps : (p x : String) → P p → member x (below p) ≡ true → P x) where
    pub explore_sound :
        (fuel : ℕ) (out stack res : List String)
        → explore below fuel out stack ≡ some res
        → ((x : String) → member x out ≡ true → P x)
        → ((x : String) → member x stack ≡ true → P x)
        → (x : String) → member x res ≡ true
        → P x
    unfolding explore member
    explore_sound zero out stack res e h k x m = cc
    explore_sound (suc fuel) out [] res e h k x m = h x (ground (arith, e, m))
    explore_sound (suc fuel) out (id ∷ stack) res e h k x m =
        let child = λ (y : String) (q : member y (below id) ≡ true).
          keeps id y (k id (member_head id stack)) q in
        explore_sound fuel (visit (below id) out stack).0 (visit (below id) out stack).1 res e
          (λ y q.
            elim (or_cases (member y out) (member y (below id))
              (sym (visit-out y (below id) out stack) ∙ q)) [
                | inl old ↦ h y old
                | inr new ↦ child y new
              ])
          (λ y q.
            elim (or_cases (member y stack) (member y (below id) && not (member y out))
              (sym (visit-stack y (below id) out stack) ∙ q)) [
                | inl old ↦ k y (member_tail y id stack old)
                | inr new ↦ child y (ground (arith, new))
              ])
          x m

  pub explore_grows :
      (fuel : ℕ) (out stack res : List String)
      → explore below fuel out stack ≡ some res
      → (x : String) → member x out ≡ true
      → member x res ≡ true
  unfolding explore
  explore_grows zero out stack res e x m = cc
  explore_grows (suc fuel) out [] res e x m = ground (arith, e, m)
  explore_grows (suc fuel) out (id ∷ stack) res e x m =
      explore_grows fuel (visit (below id) out stack).0 (visit (below id) out stack).1 res e x
        (ground (arith, m, visit-out x (below id) out stack))

  -- A member of the set still waits on the stack, or all below it are in the set.
  abbrev IsClosed : List String → List String → Type 0
  IsClosed out stack =
      (x y : String)
      → member x out ≡ true
      → member y (below x) ≡ true
      → (member x stack ≡ true) ⊎ (member y out ≡ true)

  visit-IsClosed :
      (id : String) (out stack : List String)
      → IsClosed out (id ∷ stack)
      → IsClosed (visit (below id) out stack).0 (visit (below id) out stack).1
  visit-IsClosed id out stack closed x y m n = elim (Bool-cases (member x out)) [
    | inl old ↦ elim (closed x y old n) [
      | inl waits ↦ elim (member_cases x id stack waits) [
        | inl e ↦
            let n' : member y (below id) ≡ true =
              subst (λ z. member y (below z) ≡ true) (sym e) n in
            inr (ground (arith, n', visit-out y (below id) out stack))
        | inr later ↦ inl (ground (arith, later, visit-stack x (below id) out stack))
      ]
      | inr found ↦ inr (ground (arith, found, visit-out y (below id) out stack))
    ]
    | inr new ↦ inl (
        ground
          (arith, new, m, visit-out x (below id) out stack, visit-stack x (below id) out stack))
  ]

  pub explore_closed :
      (fuel : ℕ) (out stack res : List String)
      → explore below fuel out stack ≡ some res
      → IsClosed out stack
      → (x y : String) → member x res ≡ true
      → member y (below x) ≡ true
      → member y res ≡ true
  unfolding explore member
  explore_closed zero out stack res e closed x y m n = cc
  explore_closed (suc fuel) out [] res e closed x y m n =
      let ended : out ≡ res = cc in
      elim (closed x y (subst (λ z. member x z ≡ true) (sym ended) m) n) [
        | inl waits ↦ absurd (nothing_waits x waits)
        | inr found ↦ subst (λ z. member y z ≡ true) ended found
      ]
  explore_closed (suc fuel) out (id ∷ stack) res e closed x y m n =
      explore_closed fuel (visit (below id) out stack).0 (visit (below id) out stack).1 res e
        (visit-IsClosed id out stack closed) x y m n
