-- ===== src/Devices/Form.antt =====
-- The form of a device (admin-web/src/pages/app/devices/utils.ts, its submission in DeviceForm.tsx), and
-- the bodies that DeviceCreatePage.tsx and DeviceEditPage.tsx send. `C` is a JSON object.
use hr_profi_uz.Users.Form.{text_or_empty, full_text}
use hr_profi_uz.Common.{Option, String, Bool, true, is_blank, if◌then◌else◌}

pub data DeviceVendor : Type 0 where
  hikvision dahua zkteco generic : DeviceVendor

pub data DeviceLocationRole : Type 0 where
  entry exit both : DeviceLocationRole

pub data DeviceStatus : Type 0 where
  online offline maintenance : DeviceStatus

pub record Device (C : Type 0) : Type 0 where
  pub id : String
  pub company_id : String
  pub branch_id : Option String
  pub name : String
  pub vendor : DeviceVendor
  pub model : Option String
  pub firmware_version : Option String
  pub serial_number : String
  pub ip_address : Option String
  pub mac_address : Option String
  pub location_role : DeviceLocationRole
  pub last_seen_at : Option String
  pub status : DeviceStatus
  pub config : C
  pub is_active : Bool
  pub created_at : String
  pub updated_at : String

pub record DeviceFormState : Type 0 where
  pub name : String
  pub vendor : DeviceVendor
  pub branch_id : String
  pub model : String
  pub firmware_version : String
  pub serial_number : String
  pub ip_address : String
  pub mac_address : String
  pub location_role : DeviceLocationRole
  pub config : String
  pub is_active : Bool

abbrev pub empty_device_form : DeviceFormState
empty_device_form = record {
  name = "";
  vendor = hikvision;
  branch_id = "";
  model = "";
  firmware_version = "";
  serial_number = "";
  ip_address = "";
  mac_address = "";
  location_role = both;
  config = "{}";
  is_active = true;
}

-- What `JSON.parse` gives: it throws, or returns a value that is no object, or an object.
pub data Parsed (C : Type 0) : Type 0 where
  no_json no_object : Parsed C
  object : C → Parsed C

-- The body of a new device; a field that may be absent is an `Option`.
pub record CreateDevice (C : Type 0) : Type 0 where
  pub name : String
  pub vendor : DeviceVendor
  pub serial_number : String
  pub location_role : DeviceLocationRole
  pub config : C
  pub branch_id : Option String
  pub model : Option String
  pub firmware_version : Option String
  pub ip_address : Option String
  pub mac_address : Option String

-- The body of a change; `none` is `null`.
pub record EditDevice (C : Type 0) : Type 0 where
  pub name : String
  pub location_role : DeviceLocationRole
  pub is_active : Bool
  pub config : C
  pub branch_id : Option String
  pub model : Option String
  pub ip_address : Option String
  pub mac_address : Option String

-- What `handleSubmit` leads to: a message under the field, or a submission.
pub data Submission (C : Type 0) : Type 0 where
  must_be_object json_error : Submission C
  submitted : DeviceFormState → C → Submission C

module _ {C : Type 0} where
  -- `print` is `JSON.stringify` with its layout.
  unfoldable pub from_device : (C → String) → Device C → DeviceFormState
  from_device print d = record {
    name = d.name;
    vendor = d.vendor;
    branch_id = text_or_empty d.branch_id;
    model = text_or_empty d.model;
    firmware_version = text_or_empty d.firmware_version;
    serial_number = d.serial_number;
    ip_address = text_or_empty d.ip_address;
    mac_address = text_or_empty d.mac_address;
    location_role = d.location_role;
    config = print d.config;
    is_active = d.is_active;
  }

  abbrev pub with_config : DeviceFormState → Parsed C → Submission C
  with_config f no_json = json_error
  with_config f no_object = must_be_object
  with_config f (object c) = submitted f c

  -- `empty` is the object `{}`.
  unfoldable pub handle_submit :
      (String → String) → (String → Parsed C) → C → DeviceFormState → Submission C
  handle_submit trim parse empty f =
      if is_blank (trim f.config) then submitted f empty else with_config f (parse f.config)

  unfoldable pub create_device : DeviceFormState → C → CreateDevice C
  create_device f c = record {
    name = f.name;
    vendor = f.vendor;
    serial_number = f.serial_number;
    location_role = f.location_role;
    config = c;
    branch_id = full_text f.branch_id;
    model = full_text f.model;
    firmware_version = full_text f.firmware_version;
    ip_address = full_text f.ip_address;
    mac_address = full_text f.mac_address;
  }

  unfoldable pub edit_device : DeviceFormState → C → EditDevice C
  edit_device f c = record {
    name = f.name;
    location_role = f.location_role;
    is_active = f.is_active;
    config = c;
    branch_id = full_text f.branch_id;
    model = full_text f.model;
    ip_address = full_text f.ip_address;
    mac_address = full_text f.mac_address;
  }
