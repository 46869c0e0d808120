-- ===== src/Shifts/Template.antt =====
-- `ShiftTemplate` of admin-web/src/lib/types.ts. A time is the text that the server sends.
use hr_profi_uz.Common.{String, Option, Bool, ℕ, List}

pub data ShiftType : Type 0 where
  fixed flexible split : ShiftType

pub record ShiftTemplate : Type 0 where
  pub id : String
  pub company_id : String
  pub name : String
  pub type : ShiftType
  pub start_time : Option String
  pub end_time : Option String
  pub break_minutes : ℕ
  pub expected_hours : Option String
  pub allow_overtime : Bool
  pub is_active : Bool
  pub working_days : List ℕ  -- 1 is Monday, 7 is Sunday
