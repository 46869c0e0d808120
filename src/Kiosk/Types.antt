-- ===== src/Kiosk/Types.antt =====
-- Records that the kiosk exchanges with the server: kiosk-web/src/lib/types.ts.
use hr_profi_uz.Common.{ℕ, String, Bool, Option}

-- `KioskEmployee`
pub record Employee : Type 0 where
  pub id : String
  pub employee_code : Option String
  pub full_name : String
  pub photo_url : Option String
  pub department_name : Option String
  pub position : Option String
  pub is_currently_in : Bool

pub data CheckType : Type 0 where
  check_in check_out : CheckType

-- `KioskAttendanceResponse`; the timestamp is the server's text.
pub record AttendanceResponse : Type 0 where
  pub employee : Employee
  pub check_type : CheckType
  pub timestamp : String
  pub is_late : Bool
  pub late_minutes : ℕ
  pub overtime_minutes : ℕ

-- `KioskRecognizeMatch`; the page does not compare scores, so a score is its printed text.
pub record RecognizeMatch : Type 0 where
  pub employee : Employee
  pub score : String

-- `KioskRecognizeResponse`; `match` is `found` here.
pub record RecognizeResponse : Type 0 where
  pub matched : Bool
  pub found : Option RecognizeMatch
  pub reason : Option String
