-- ===== src/Companies/Form.antt =====
-- The form of a company (admin-web/src/pages/owner/companies/utils.ts), and the bodies that
-- CompanyCreatePage.tsx and CompanyEditPage.tsx send. `S` is the JSON object of the settings.
use hr_profi_uz.Users.Form.{text_or_empty, full_text, Language, uz}
use hr_profi_uz.Common.{Option, none, some, String, Bool, true, is_blank, if◌then◌else◌}

pub data CompanyPlan : Type 0 where
  free pro enterprise : CompanyPlan

pub record Company (S : Type 0) : Type 0 where
  pub id : String
  pub name : String
  pub slug : String
  pub logo_url : Option String
  pub timezone : String
  pub currency : String
  pub country : String
  pub language_default : Language
  pub plan : CompanyPlan
  pub subscription_until : Option String
  pub settings : S
  pub is_active : Bool
  pub suspended_at : Option String
  pub suspended_reason : Option String
  pub created_at : String
  pub updated_at : String

pub record CompanyFormState : Type 0 where
  pub name : String
  pub slug : String
  pub logo_url : String
  pub country : String
  pub timezone : String
  pub currency : String
  pub language_default : Language
  pub plan : CompanyPlan
  pub subscription_until : String
  pub is_active : Bool
  pub admin_username : String
  pub admin_email : String
  pub admin_password : String
  pub admin_full_name : String

abbrev pub empty_company_form : CompanyFormState
empty_company_form = record {
  name = "";
  slug = "";
  logo_url = "";
  country = "UZ";
  timezone = "Asia/Tashkent";
  currency = "UZS";
  language_default = uz;
  plan = free;
  subscription_until = "";
  is_active = true;
  admin_username = "";
  admin_email = "";
  admin_password = "";
  admin_full_name = "";
}

-- `date_part` is `slice(0, 10)`.
abbrev pub until : (String → String) → Option String → String
until date_part none = ""
until date_part (some s) = if is_blank s then "" else date_part s

unfoldable pub from_company : {S : Type 0} → (String → String) → Company S → CompanyFormState
from_company date_part c = record {
  name = c.name;
  slug = c.slug;
  logo_url = text_or_empty c.logo_url;
  country = c.country;
  timezone = c.timezone;
  currency = c.currency;
  language_default = c.language_default;
  plan = c.plan;
  subscription_until = until date_part c.subscription_until;
  is_active = true;
  admin_username = "";
  admin_email = "";
  admin_password = "";
  admin_full_name = "";
}

-- The body of a new company; a field that may be absent is an `Option`.
pub record CreateCompany : Type 0 where
  pub name : String
  pub slug : String
  pub plan : CompanyPlan
  pub country : String
  pub timezone : String
  pub currency : String
  pub language_default : Language
  pub admin_username : String
  pub admin_password : String
  pub subscription_until : Option String
  pub admin_email : Option String
  pub admin_full_name : Option String

unfoldable pub create_company : CompanyFormState → CreateCompany
create_company f = record {
  name = f.name;
  slug = f.slug;
  plan = f.plan;
  country = f.country;
  timezone = f.timezone;
  currency = f.currency;
  language_default = f.language_default;
  admin_username = f.admin_username;
  admin_password = f.admin_password;
  subscription_until = full_text f.subscription_until;
  admin_email = full_text f.admin_email;
  admin_full_name = full_text f.admin_full_name;
}

-- The body of a change; `none` is `null`.
pub record EditCompany : Type 0 where
  pub name : String
  pub slug : String
  pub country : String
  pub timezone : String
  pub currency : String
  pub language_default : Language
  pub plan : CompanyPlan
  pub logo_url : Option String
  pub subscription_until : Option String

unfoldable pub edit_company : CompanyFormState → EditCompany
edit_company f = record {
  name = f.name;
  slug = f.slug;
  country = f.country;
  timezone = f.timezone;
  currency = f.currency;
  language_default = f.language_default;
  plan = f.plan;
  logo_url = full_text f.logo_url;
  subscription_until = full_text f.subscription_until;
}
