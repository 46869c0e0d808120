-- ===== src/Attendance/Records.antt =====
-- The records of admin-web/src/lib/types.ts that the attendance pages read. A measured number that they do
-- not compute with is its printed text.
use hr_profi_uz.Common.{String, Option, Bool, ℕ}

pub data CheckType : Type 0 where
  check_in check_out : CheckType

pub data AttendanceMethod : Type 0 where
  mobile_app face_device kiosk_tablet qr_code manual : AttendanceMethod

pub data AttendanceRecordStatus : Type 0 where
  valid suspicious rejected : AttendanceRecordStatus

pub record AttendanceRecord : Type 0 where
  pub id : String
  pub company_id : String
  pub employee_id : String
  pub branch_id : Option String
  pub check_type : CheckType
  pub method : AttendanceMethod
  pub timestamp : ℕ  -- the time of the text, in milliseconds
  pub latitude : Option String
  pub longitude : Option String
  pub accuracy_m : Option String
  pub selfie_url : Option String
  pub face_match_score : Option String
  pub is_late : Bool
  pub late_minutes : ℕ
  pub is_early_leave : Bool
  pub overtime_minutes : ℕ
  pub status : AttendanceRecordStatus
  pub notes : Option String
  pub created_at : String
  pub branch_name : Option String
  pub branch_geofence_radius_m : Option String
  pub distance_from_branch_m : Option String
  pub within_geofence : Option Bool

pub data ShiftStatusLabel : Type 0 where
  present late in_progress absent on_leave rest_day not_scheduled : ShiftStatusLabel

pub record DailyOverviewRow : Type 0 where
  pub employee_id : String
  pub employee_code : String
  pub full_name : String
  pub photo_url : Option String
  pub branch_id : Option String
  pub department_id : Option String
  pub position : Option String
  pub first_check_in : Option String
  pub last_check_out : Option String
  pub is_currently_in : Bool
  pub minutes_worked : ℕ
  pub late_minutes : ℕ
  pub overtime_minutes : ℕ
  pub shift_status : ShiftStatusLabel

pub record Branch : Type 0 where
  pub id : String
  pub company_id : String
  pub name : String
  pub address : Option String
  pub photo_url : Option String
  pub latitude : Option String
  pub longitude : Option String
  pub geofence_radius_m : ℕ
  pub manager_id : Option String
  pub working_hours : Option String  -- an object, as its printed text
  pub is_active : Bool
  pub created_at : String
  pub updated_at : String
