-- ===== src/Departments/Visit.antt =====
-- One round of the loop of `forbiddenIds` (admin-web/src/pages/app/departments/DepartmentForm.tsx).
use hr_profi_uz.Departments.Picker.{member, visit}
use hr_profi_uz.Common.{
  String, List, true, false, [], ◌∷◌, ◌===◌, ◌||◌, ◌&&◌, not, ℕ, if◌then◌else◌, length, ◌+◌, ◌≡◌,
  ◌≤◌, ◌<◌, arith, eq_iff, inl, inr, All, Bool-cases, ap,
}

pub visit-out :
    (x : String) (cs out stack : List String)
    → member x (visit cs out stack).0 ≡ (member x out || member x cs)
unfolding member visit
visit-out x [] out stack = ground arith
visit-out x (c ∷ cs) out stack =
    let rest =
      visit-out x cs (if member c out then out else c ∷ out)
        (if member c out then stack else c ∷ stack) in
    elim (Bool-cases (c === x)) [
      | inl e ↦ ground (arith, e, rest, ap (λ (k : String). member k out) ((eq_iff c x).0 e))
      | inr e ↦ ground (arith, e, rest)
    ]

pub visit-stack :
    (x : String) (cs out stack : List String)
    → member x (visit cs out stack).1 ≡ (member x stack || (member x cs && not (member x out)))
unfolding member visit
visit-stack x [] out stack = ground arith
visit-stack x (c ∷ cs) out stack =
    let rest =
      visit-stack x cs (if member c out then out else c ∷ out)
        (if member c out then stack else c ∷ stack) in
    elim (Bool-cases (c === x)) [
      | inl e ↦ ground (arith, e, rest, ap (λ (k : String). member k out) ((eq_iff c x).0 e))
      | inr e ↦ ground (arith, e, rest)
    ]

-- How many of the ids are not in the set.
abbrev pub missing : List String → List String → ℕ
missing [] out = 0
missing (i ∷ ids) out = (if member i out then 0 else 1) + missing ids out

missing-le :
    (ids : List String) (c : String) (out : List String) → missing ids (c ∷ out) ≤ missing ids out
unfolding member
missing-le [] c out = omega arith
missing-le (i ∷ ids) c out = ground (arith, missing-le ids c out)

missing-lt :
    (ids : List String) (c : String) (out : List String)
    → member c ids ≡ true
    → member c out ≡ false
    → missing ids (c ∷ out) < missing ids out
unfolding member
missing-lt [] c out h k = cc
missing-lt (i ∷ ids) c out h k = elim (Bool-cases (i === c)) [
  | inl e ↦ ground (
    arith,
    e,
    missing-le ids c out,
    ap (λ (x : String). member x out) ((eq_iff i c).0 e),
    ap (λ (x : String). c === x) ((eq_iff i c).0 e),
    eq_iff c i,
    eq_iff i c,
  )
  | inr e ↦ ground (arith, e, missing-lt ids c out, missing-le ids c out)
]

visit-seen :
    (c : String) (cs out stack : List String)
    → member c out ≡ true
    → visit (c ∷ cs) out stack ≡ visit cs out stack
unfolding visit
visit-seen c cs out stack h = rw h (λ i. visit cs out stack)

visit-new :
    (c : String) (cs out stack : List String)
    → member c out ≡ false
    → visit (c ∷ cs) out stack ≡ visit cs (c ∷ out) (c ∷ stack)
unfolding visit
visit-new c cs out stack h = rw h (λ i. visit cs (c ∷ out) (c ∷ stack))

pub visit_measure :
    (ids cs out stack : List String)
    → All (λ c. member c ids ≡ true) cs
    → missing ids (visit cs out stack).0 + length (visit cs out stack).1
      ≤ missing ids out + length stack
unfolding visit
visit_measure ids [] out stack h = omega arith
visit_measure ids (c ∷ cs) out stack (h, hs) = elim (Bool-cases (member c out)) [
  | inl e ↦ rw (visit-seen c cs out stack e) (visit_measure ids cs out stack hs)
  | inr e ↦
      rw (visit-new c cs out stack e)
        (omega (arith, visit_measure ids cs (c ∷ out) (c ∷ stack) hs, missing-lt ids c out h e))
]
