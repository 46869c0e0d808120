-- ===== src/Companies/Saving.antt =====
-- What the form of a company sends (admin-web/src/pages/owner/companies/CompanyEditPage.tsx).
use hr_profi_uz.Companies.Form.{Company, from_company, edit_company, until}
use hr_profi_uz.Users.Saving.{IsFilled, full_text-text_or_empty}
use hr_profi_uz.Users.Form.{full_text}
use hr_profi_uz.Common.{String, Option, none, some, ◌≡◌, arith, eq_iff, refl}

module _ (date_part : String → String) where
  -- The date of a time of the server.
  abbrev pub last_day : Option String → Option String
  last_day none = none
  last_day (some s) = some (date_part s)

  until-last_day :
      (x : Option String)
      → IsFilled x
      → IsFilled (last_day x)
      → full_text (until date_part x) ≡ last_day x
  until-last_day none h k = refl
  until-last_day (some s) h k = ground (arith, h, k, eq_iff s "", eq_iff (date_part s) "")

  -- Saving the form of a company that was not touched sends the company's own name, address of the panel,
  -- place, currency, language, plan and logo, and the date of the end of its subscription in place of its
  -- time, where the optional texts are not blank.
  untouched_form_keeps_company :
      {S : Type 0} (c : Company S)
      → IsFilled c.logo_url
      → IsFilled c.subscription_until
      → IsFilled (last_day c.subscription_until)
      → let b = edit_company (from_company date_part c) in
        (b.name ≡ c.name)
        × (b.slug ≡ c.slug)
        × (b.country ≡ c.country)
        × (b.timezone ≡ c.timezone)
        × (b.currency ≡ c.currency)
        × (b.language_default ≡ c.language_default)
        × (b.plan ≡ c.plan)
        × (b.logo_url ≡ c.logo_url)
        × (b.subscription_until ≡ last_day c.subscription_until)
  unfolding from_company edit_company
  untouched_form_keeps_company c logo time date = ground (
    arith,
    full_text-text_or_empty c.logo_url logo,
    until-last_day c.subscription_until time date,
  )
