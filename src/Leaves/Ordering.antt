-- ===== src/Leaves/Ordering.antt =====
-- The table of leave requests is ordered (admin-web/src/pages/app/leaves/RequestsTab.tsx).
use hr_profi_uz.Staff.{Employee}
use hr_profi_uz.Leaves.Requests.{
  LeaveRequest, SortKey, newest, oldest, name, days_desc, days_asc, by_status, Filters, keeps,
  before, filtered, name_of, emp_by_id, LeaveStatus, matches_query, rank, has_status,
}
use mathlib.Core.List.{Perm}
use hr_profi_uz.Common.{
  String, Bool, true, List, ◌≡◌, ◌⊎◌, arith, filter_by, sort_by-perm, IsSortedBy,
  sort_by-IsSortedBy, ◌<◌, none, Option, false, some, is_blank, inl, refl, ◌∷◌, All, [], All_mono,
}

module _ (normal lower : String → String) (includes text_lt collate_le : String → String → Bool)
    (total : (s t : String) → (collate_le s t ≡ true) ⊎ (collate_le t s ≡ true))
    (trans : (s t u : String)
      → collate_le s t ≡ true
      → collate_le t u ≡ true
      → collate_le s u ≡ true) where
  abbrev le : SortKey → List Employee → LeaveRequest → LeaveRequest → Bool
  le = before normal lower includes text_lt collate_le

  before_total :
      (key : SortKey) (es : List Employee) (a b : LeaveRequest)
      → (le key es a b ≡ true) ⊎ (le key es b a ≡ true)
  before_total newest es a b = total b.created_at a.created_at
  before_total oldest es a b = total a.created_at b.created_at
  before_total name es a b =
      total (name_of (emp_by_id a.employee_id es)) (name_of (emp_by_id b.employee_id es))
  before_total days_desc es a b = ground (arith, total b.created_at a.created_at)
  before_total days_asc es a b = ground (arith, total b.created_at a.created_at)
  before_total by_status es a b = ground (arith, total b.created_at a.created_at)

  before_trans :
      (key : SortKey) (es : List Employee) (a b c : LeaveRequest)
      → le key es a b ≡ true
      → le key es b c ≡ true
      → le key es a c ≡ true
  before_trans newest es a b c h k = trans c.created_at b.created_at a.created_at k h
  before_trans oldest es a b c h k = trans a.created_at b.created_at c.created_at h k
  before_trans name es a b c h k = trans _ (name_of (emp_by_id b.employee_id es)) _ h k
  before_trans days_desc es a b c h k = ground (arith, trans c.created_at b.created_at a.created_at)
  before_trans days_asc es a b c h k = ground (arith, trans c.created_at b.created_at a.created_at)
  before_trans by_status es a b c h k = ground (arith, trans c.created_at b.created_at a.created_at)

  -- `a` may stand before `b` in the table: by the date of creation, by the employee's name, or by the
  -- days or the status and then the newer first.
  abbrev pub Precedes : SortKey → List Employee → LeaveRequest → LeaveRequest → Type 0
  Precedes newest es a b = collate_le b.created_at a.created_at ≡ true
  Precedes oldest es a b = collate_le a.created_at b.created_at ≡ true
  Precedes name es a b =
      collate_le (name_of (emp_by_id a.employee_id es)) (name_of (emp_by_id b.employee_id es))
      ≡ true
  Precedes days_desc es a b =
      (b.days < a.days) ⊎ ((a.days ≡ b.days) × (collate_le b.created_at a.created_at ≡ true))
  Precedes days_asc es a b =
      (a.days < b.days) ⊎ ((a.days ≡ b.days) × (collate_le b.created_at a.created_at ≡ true))
  Precedes by_status es a b =
      (rank a.status < rank b.status)
      ⊎ ((a.status ≡ b.status) × (collate_le b.created_at a.created_at ≡ true))

  rank-eq : (s t : LeaveStatus) → rank s ≡ rank t → s ≡ t
  rank-eq LeaveStatus.pending LeaveStatus.pending h = refl
  rank-eq LeaveStatus.approved LeaveStatus.approved h = refl
  rank-eq LeaveStatus.rejected LeaveStatus.rejected h = refl
  rank-eq LeaveStatus.cancelled LeaveStatus.cancelled h = refl
  rank-eq _ _ h = ground (arith, h)

  before-Precedes :
      (key : SortKey) (es : List Employee) (a b : LeaveRequest)
      → le key es a b ≡ true
      → Precedes key es a b
  before-Precedes newest es a b h = h
  before-Precedes oldest es a b h = h
  before-Precedes name es a b h = h
  before-Precedes days_desc es a b h = ground arith
  before-Precedes days_asc es a b h = ground arith
  before-Precedes by_status es a b h = ground (arith, rank-eq a.status b.status)

  -- The request has the chosen status if one is chosen; the query is in its employee's name or code if
  -- there is a query; it does not end before `from` nor begin after `to`, if they are given.
  abbrev pub Mentions : String → Option Employee → Type 0
  Mentions q none = includes (lower "") q ≡ true
  Mentions q (some e) =
      (includes (lower e.full_name) q ≡ true) ⊎ (includes (lower e.employee_code) q ≡ true)

  pub record IsWanted (f : Filters) (es : List Employee) (r : LeaveRequest) : Type 0 where
    pub status : (f.status_filter ≡ none) ⊎ (f.status_filter ≡ some r.status)
    pub query :
        (is_blank (normal f.query) ≡ true) ⊎ Mentions (normal f.query) (emp_by_id r.employee_id es)
    pub not_before : (is_blank f.from ≡ true) ⊎ (text_lt r.end_date f.from ≡ false)
    pub not_after : (is_blank f.to ≡ true) ⊎ (text_lt f.to r.start_date ≡ false)

  has_status-cases :
      (o : Option LeaveStatus) (s : LeaveStatus)
      → ((has_status o s ≡ true) × ((o ≡ none) ⊎ (o ≡ some s)))
        ⊎ ((has_status o s ≡ false) × (¬ ((o ≡ none) ⊎ (o ≡ some s))))
  has_status-cases none s = inl (refl, inl refl)
  has_status-cases (some wanted) s = ground (arith, rank-eq wanted s)

  matches_query-cases :
      (q : String) (o : Option Employee)
      → ((matches_query normal lower includes text_lt collate_le q o ≡ true) × Mentions q o)
        ⊎ ((matches_query normal lower includes text_lt collate_le q o ≡ false) × (¬ Mentions q o))
  matches_query-cases q none = ground arith
  matches_query-cases q (some e) = ground arith

  keeps-cases :
      (f : Filters) (es : List Employee) (r : LeaveRequest)
      → ((keeps normal lower includes text_lt collate_le f es r ≡ true) × IsWanted f es r)
        ⊎ ((keeps normal lower includes text_lt collate_le f es r ≡ false) × (¬ IsWanted f es r))
  keeps-cases f es r = ground (
    arith,
    has_status-cases f.status_filter r.status,
    matches_query-cases (normal f.query) (emp_by_id r.employee_id es),
  )

  abbrev pub IsOrdered : SortKey → List Employee → List LeaveRequest → Type 0
  IsOrdered key es [] = Unit
  IsOrdered key es (r ∷ rs) = All (Precedes key es r) rs × IsOrdered key es rs

  sorted-IsOrdered :
      (key : SortKey) (es : List Employee) (rs : List LeaveRequest)
      → IsSortedBy (le key es) rs
      → IsOrdered key es rs
  sorted-IsOrdered key es [] h = tt
  sorted-IsOrdered key es (r ∷ rs) (p, h) =
      (All_mono _ _ rs (before-Precedes key es r) p, sorted-IsOrdered key es rs h)

  -- When the collation of texts is total and transitive, the table holds exactly the requests that the
  -- test of the filters keeps, and every one of them precedes all that follow it: newer or older ones
  -- first, by the employee's name, or by more days, fewer days or the rank of the status, of which equal
  -- ones have the newer first. The test keeps a request just when it has the chosen status, if any, its
  -- employee's name or code contains the query, if any, it does not end before the date `from`, if given,
  -- and it does not begin after the date `to`, if given.
  pub requests_table :
      (f : Filters) (es : List Employee) (requests : List LeaveRequest) (r : LeaveRequest)
      → let table = filtered normal lower includes text_lt collate_le f es requests in
        let kept = keeps normal lower includes text_lt collate_le f es in
        Perm table (filter_by kept requests)
        × IsOrdered f.sort_key es table
        × (((kept r ≡ true) × IsWanted f es r) ⊎ ((kept r ≡ false) × (¬ IsWanted f es r)))
  unfolding filtered
  requests_table f es requests r =
      let kept = filter_by (keeps normal lower includes text_lt collate_le f es) requests in
      (
        sort_by-perm (le f.sort_key es) kept,
        sorted-IsOrdered f.sort_key es _ (
            sort_by-IsSortedBy (le f.sort_key es) (before_total f.sort_key es)
              (before_trans f.sort_key es) kept),
        keeps-cases f es r,
      )
