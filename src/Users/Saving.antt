-- ===== src/Users/Saving.antt =====
-- What the pages of a user account send (admin-web/src/pages/app/users/UserCreatePage.tsx and
-- UserEditPage.tsx).
use hr_profi_uz.Common.{
  Option, ◌≡◌, String, if◌then◌else◌, ◌≢◌, some, none, arith, Bool-cases, is_blank, inl, ap, eq_iff,
  inr, refl, true, ◌⊎◌,
}
use hr_profi_uz.Users.Form.{
  from_user, edit_body, create_body, User, UserFormState, full_text, is_branch_manager,
  text_or_empty, sent_branch,
}

-- An account as the server keeps it: no text that may be absent is blank.
abbrev pub IsFilled : Option String → Type 0
IsFilled x = x ≢ some ""

pub full_text-text_or_empty : (x : Option String) → IsFilled x → full_text (text_or_empty x) ≡ x
full_text-text_or_empty none h = refl
full_text-text_or_empty (some s) h = elim (Bool-cases (is_blank s)) [
  | inl blank ↦ absurd (h (ap some ((eq_iff _ _).0 blank)))
  | inr full ↦ rw full refl
]

full_text-IsFilled : (s : String) → IsFilled (full_text s)
full_text-IsFilled s = λ h. ground (arith, h, eq_iff s "")

sent_branch-IsFilled : (f : UserFormState) → IsFilled (sent_branch f)
sent_branch-IsFilled f = λ h. ground (arith, h, eq_iff f.branch_id "")

-- Whatever the form holds, the body that creates an account and the body that changes one have no blank
-- text in a field that may be absent, both have the same branch, and it is absent unless the role is that of a
-- branch manager.
bodies_have_no_blank :
    (f : UserFormState)
    → let c = create_body f in
      let e = edit_body f in
      IsFilled c.email
      × IsFilled c.full_name
      × IsFilled c.phone
      × IsFilled c.branch_id
      × IsFilled e.email
      × IsFilled e.full_name
      × IsFilled e.phone
      × (c.branch_id ≡ e.branch_id)
      × ((is_branch_manager f.role ≡ true) ⊎ (c.branch_id ≡ none))
unfolding create_body edit_body
bodies_have_no_blank f =
    let mail = full_text-IsFilled f.email in
    let name = full_text-IsFilled f.full_name in
    let phone = full_text-IsFilled f.phone in
    (mail, name, phone, sent_branch-IsFilled f, mail, name, phone, refl, ground arith)

-- Saving the form of an account that was not touched sends the account's own name, address, phone,
-- language and status, if none of its optional texts is blank; the branch is sent for a branch manager
-- and for nobody else.
untouched_form_keeps_user :
    (u : User)
    → IsFilled u.full_name
    → IsFilled u.email
    → IsFilled u.phone
    → IsFilled u.branch_id
    → let b = edit_body (from_user u) in
      (b.full_name ≡ u.full_name)
      × (b.email ≡ u.email)
      × (b.phone ≡ u.phone)
      × (b.language ≡ u.language)
      × (b.is_active ≡ u.is_active)
      × (b.status ≡ u.status)
      × (b.branch_id ≡ (if is_branch_manager u.role then u.branch_id else none))
unfolding edit_body from_user
untouched_form_keeps_user u name mail phone branch = ground (
  arith,
  full_text-text_or_empty u.full_name name,
  full_text-text_or_empty u.email mail,
  full_text-text_or_empty u.phone phone,
  full_text-text_or_empty u.branch_id branch,
)
