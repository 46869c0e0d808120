-- ===== src/Users/Form.antt =====
-- The form of a user account (admin-web/src/pages/app/users/utils.ts), and the bodies that
-- admin-web/src/pages/app/users/UserCreatePage.tsx and UserEditPage.tsx send. A field of a body that
-- may be absent is an `Option`; where its value may be `null` too, an `Option` of an `Option`.
use hr_profi_uz.Common.{
  Option, none, some, String, Bool, true, false, is_blank, ◌&&◌, not, if◌then◌else◌,
}

pub data Role : Type 0 where
  owner company_admin hr_manager branch_manager employee_role device_role : Role

pub data UserStatus : Type 0 where
  active invited suspended terminated : UserStatus

pub data Language : Type 0 where
  uz ru en : Language

pub record User : Type 0 where
  pub id : String
  pub company_id : Option String
  pub branch_id : Option String
  pub username : String
  pub email : Option String
  pub role : Role
  pub status : UserStatus
  pub full_name : Option String
  pub phone : Option String
  pub language : Language
  pub is_active : Bool
  pub two_factor_enabled : Bool
  pub created_at : String
  pub updated_at : String

pub record UserFormState : Type 0 where
  pub username : String
  pub email : String
  pub full_name : String
  pub phone : String
  pub password : String
  pub role : Role
  pub language : Language
  pub status : UserStatus
  pub is_active : Bool
  pub branch_id : String

abbrev pub empty_user_form : UserFormState
empty_user_form = record {
  username = "";
  email = "";
  full_name = "";
  phone = "";
  password = "";
  role = hr_manager;
  language = uz;
  status = active;
  is_active = true;
  branch_id = "";
}

-- `?? ""`
abbrev pub text_or_empty : Option String → String
text_or_empty none = ""
text_or_empty (some s) = s

unfoldable pub from_user : User → UserFormState
from_user u = record {
  username = u.username;
  email = text_or_empty u.email;
  full_name = text_or_empty u.full_name;
  phone = text_or_empty u.phone;
  password = "";
  role = u.role;
  language = u.language;
  status = u.status;
  is_active = u.is_active;
  branch_id = text_or_empty u.branch_id;
}

abbrev pub is_branch_manager : Role → Bool
is_branch_manager owner = false
is_branch_manager company_admin = false
is_branch_manager hr_manager = false
is_branch_manager branch_manager = true
is_branch_manager employee_role = false
is_branch_manager device_role = false

-- `f.email || null`, and `if (f.email) body.email = f.email`.
abbrev pub full_text : String → Option String
full_text s = if is_blank s then none else some s

pub record CreateBody : Type 0 where
  pub username : String
  pub password : String
  pub role : Role
  pub language : Language
  pub email : Option String
  pub full_name : Option String
  pub phone : Option String
  pub branch_id : Option String

abbrev pub sent_branch : UserFormState → Option String
sent_branch f =
    if is_branch_manager f.role && not (is_blank f.branch_id) then some f.branch_id else none

unfoldable pub create_body : UserFormState → CreateBody
create_body f = record {
  username = f.username;
  password = f.password;
  role = f.role;
  language = f.language;
  email = full_text f.email;
  full_name = full_text f.full_name;
  phone = full_text f.phone;
  branch_id = sent_branch f;
}

pub record EditBody : Type 0 where
  pub full_name : Option String  -- `null` clears
  pub email : Option String
  pub phone : Option String
  pub language : Language
  pub is_active : Bool
  pub status : UserStatus
  pub branch_id : Option String  -- absent leaves

unfoldable pub edit_body : UserFormState → EditBody
edit_body f = record {
  full_name = full_text f.full_name;
  email = full_text f.email;
  phone = full_text f.phone;
  language = f.language;
  is_active = f.is_active;
  status = f.status;
  branch_id = sent_branch f;
}
