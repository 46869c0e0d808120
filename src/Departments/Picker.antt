-- ===== src/Departments/Picker.antt =====
-- The parents that the form offers (admin-web/src/pages/app/departments/DepartmentForm.tsx). A `Set`
-- that is only asked for its members is a list, newest first; `editing` is `editingId`, `none` for a
-- new department.
use hr_profi_uz.Departments.Form.{Department}
use hr_profi_uz.Common.{
  String, List, Option, none, some, Bool, false, [], ◌∷◌, ◌++◌, ◌===◌, ◌||◌, ◌&&◌, not, zero, suc,
  ℕ, is_blank, if◌then◌else◌, lookup, insert, Entries, filter_by, sort_by, length, ◌+◌,
}

unfoldable pub member : String → List String → Bool
member x [] = false
member x (y ∷ ys) = let rest = member x ys in y === x || rest

-- `childrenOf.get(id) ?? []`
abbrev pub or_none : Option (List String) → List String
or_none none = []
or_none (some ids) = ids

-- `if (d.parent_id)`
abbrev pub parent_of : Option String → Option String
parent_of none = none
parent_of (some p) = if is_blank p then none else some p

abbrev pub add_child : Option String → String → Entries (List String) → Entries (List String)
add_child none id m = m
add_child (some p) id m = insert p (or_none (lookup p m) ++ id ∷ []) m

-- `childrenOf`
unfoldable pub children_of : List Department → Entries (List String) → Entries (List String)
children_of [] m = m
children_of (d ∷ ds) m = children_of ds (add_child (parent_of d.parent_id) d.id m)

abbrev pub children : List Department → String → List String
children ds id = or_none (lookup id (children_of ds []))

-- The `for` loop over the children of a department: `out`, and the stack with its top first.
unfoldable pub visit : List String → List String → List String → List String × List String
unfolding member
visit [] out stack = (out, stack)
visit (c ∷ cs) out stack =
    visit cs (if member c out then out else c ∷ out) (if member c out then stack else c ∷ stack)

-- The `while` loop, for at most `fuel` rounds.
unfoldable pub explore :
    (String → List String) → ℕ → List String → List String → Option (List String)
unfolding visit
explore below zero out stack = none
explore below (suc fuel) out [] = some out
explore below (suc fuel) out (id ∷ stack) =
    let next = visit (below id) out stack in explore below fuel next.0 next.1

abbrev pub or_empty_set : Option (List String) → List String
or_empty_set none = []
or_empty_set (some out) = out

-- `forbiddenIds`: there are as many rounds as departments, and two more.
unfoldable pub forbidden_ids : List Department → Option String → List String
unfolding explore
forbidden_ids ds none = []
forbidden_ids ds (some editing) =
    if is_blank editing
    then []
    else or_empty_set (explore (children ds) (length ds + 2) (editing ∷ []) (editing ∷ []))

module _ (name_le : String → String → Bool) where
  -- `parentOptions`
  unfoldable pub parent_options : List Department → String → Option String → List Department
  unfolding forbidden_ids member
  parent_options ds branch editing =
      if is_blank branch
      then []
      else sort_by (λ a b. name_le a.name b.name)
          (filter_by
            (λ d.
              d.branch_id === branch
              && (d.is_active && not (member d.id (forbidden_ids ds editing))))
            ds)
