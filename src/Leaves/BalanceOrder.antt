-- ===== src/Leaves/BalanceOrder.antt =====
-- The balances are ordered and grouped (admin-web/src/pages/app/leaves/BalancesTab.tsx).
use hr_profi_uz.Common.{
  Option, String, ◌≡◌, Bool, true, ◌⊎◌, inl, arith, some, List, IsSortedBy, inr, none, sort_by-perm,
  sort_by-IsSortedBy, refl, if◌then◌else◌, false,
}
use hr_profi_uz.Leaves.Balances.{
  LeaveBalanceRow, before, sorted_flat, le_remaining, le_int, ℤ, SortKey, by_name, used_desc,
  used_asc, remaining_asc, over_cap, pos, negsuc,
}
use mathlib.Core.List.{Perm}

le_int_total : (a b : ℤ) → (le_int a b ≡ true) ⊎ (le_int b a ≡ true)
le_int_total (pos a) (pos b) = ground arith
le_int_total (pos a) (negsuc b) = inr refl
le_int_total (negsuc a) (pos b) = inl refl
le_int_total (negsuc a) (negsuc b) = ground arith

le_int_trans : (a b c : ℤ) → le_int a b ≡ true → le_int b c ≡ true → le_int a c ≡ true
le_int_trans (pos a) (pos b) (pos c) h k = ground (arith, h, k)
le_int_trans (pos a) (pos b) (negsuc c) h k = k
le_int_trans (pos a) (negsuc b) c h k = ground (arith, h)
le_int_trans (negsuc a) b (pos c) h k = refl
le_int_trans (negsuc a) (pos b) (negsuc c) h k = ground (arith, k)
le_int_trans (negsuc a) (negsuc b) (negsuc c) h k = ground (arith, h, k)

le_remaining_total : (a b : Option ℤ) → (le_remaining a b ≡ true) ⊎ (le_remaining b a ≡ true)
le_remaining_total a none = inl refl
le_remaining_total none (some b) = inr refl
le_remaining_total (some a) (some b) = le_int_total a b

le_remaining_trans :
    (a b c : Option ℤ) → le_remaining a b ≡ true → le_remaining b c ≡ true → le_remaining a c ≡ true
le_remaining_trans a b none h k = refl
le_remaining_trans none none (some c) h k = k
le_remaining_trans none (some b) (some c) h k = ground (arith, h)
le_remaining_trans (some a) none (some c) h k = ground (arith, k)
le_remaining_trans (some a) (some b) (some c) h k = le_int_trans a b c h k

-- Two numbers in a row, and the names where they are equal.
ranked_trans :
    (ab ba bc cb ac ca : Bool) (nab nbc nac : Bool)
    → (ab ≡ true → bc ≡ true → ac ≡ true)
    → (ca ≡ true → ab ≡ true → cb ≡ true)
    → (bc ≡ true → ca ≡ true → ba ≡ true)
    → (nab ≡ true → nbc ≡ true → nac ≡ true)
    → (if ab then (if ba then nab else true) else false) ≡ true
    → (if bc then (if cb then nbc else true) else false) ≡ true
    → (if ac then (if ca then nac else true) else false) ≡ true
ranked_trans ab ba bc cb ac ca nab nbc nac f g i n h k = ground arith

module _ (name_le : String → String → Bool)
    (total : (s t : String) → (name_le s t ≡ true) ⊎ (name_le t s ≡ true))
    (trans : (s t u : String) → name_le s t ≡ true → name_le t u ≡ true → name_le s u ≡ true) where
  before_total :
      (key : SortKey) (a b : LeaveBalanceRow)
      → (before name_le key a b ≡ true) ⊎ (before name_le key b a ≡ true)
  before_total by_name a b = total a.full_name b.full_name
  before_total used_desc a b = ground (arith, total a.full_name b.full_name)
  before_total used_asc a b = ground (arith, total a.full_name b.full_name)
  before_total remaining_asc a b =
      ground (arith, total a.full_name b.full_name, le_remaining_total a.remaining b.remaining)
  before_total over_cap a b = ground (arith, total a.full_name b.full_name)

  before_trans :
      (key : SortKey) (a b c : LeaveBalanceRow)
      → before name_le key a b ≡ true
      → before name_le key b c ≡ true
      → before name_le key a c ≡ true
  before_trans by_name a b c h k = trans a.full_name b.full_name c.full_name h k
  before_trans used_desc a b c h k = ground (arith, trans a.full_name b.full_name c.full_name)
  before_trans used_asc a b c h k = ground (arith, trans a.full_name b.full_name c.full_name)
  before_trans remaining_asc a b c h k =
      let x : Option ℤ = a.remaining in
      let y : Option ℤ = b.remaining in
      let z : Option ℤ = c.remaining in
      ranked_trans (le_remaining x y) (le_remaining y x) (le_remaining y z) (le_remaining z y)
        (le_remaining x z) (le_remaining z x) (name_le a.full_name b.full_name)
        (name_le b.full_name c.full_name) (name_le a.full_name c.full_name)
        (le_remaining_trans x y z) (le_remaining_trans z x y) (le_remaining_trans y z x)
        (trans a.full_name b.full_name c.full_name) h k
  before_trans over_cap a b c h k = ground (arith, trans a.full_name b.full_name c.full_name)

  -- When the order of names is total and transitive, the flat list holds exactly the given rows, and
  -- under each of the five sort keys every row may precede all that follow it.
  balances_table :
      (key : SortKey) (rows : List LeaveBalanceRow)
      → Perm (sorted_flat name_le key rows) rows
        × IsSortedBy (before name_le key) (sorted_flat name_le key rows)
  unfolding sorted_flat
  balances_table key rows = (
    sort_by-perm (before name_le key) rows,
    sort_by-IsSortedBy (before name_le key) (before_total key) (before_trans key) rows,
  )
