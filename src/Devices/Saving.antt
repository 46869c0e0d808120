-- ===== src/Devices/Saving.antt =====
-- What the form of a device sends (admin-web/src/pages/app/devices/DeviceForm.tsx, DeviceEditPage.tsx).
use hr_profi_uz.Devices.Form.{
  Device, Parsed, object, submitted, handle_submit, from_device, edit_device,
}
use hr_profi_uz.Users.Saving.{IsFilled, full_text-text_or_empty}
use hr_profi_uz.Common.{String, is_blank, ◌≡◌, false, arith}

module _ {C : Type 0} (trim : String → String) (parse : String → Parsed C) (print : C → String)
    (empty : C) where
  -- If reading the printed settings gives them back and their print is not blank, the form of a device that was
  -- not touched is submitted without a message, and the body that changes the device has the device's own
  -- name, role, settings and optional texts, where none of these is blank.
  untouched_form_keeps_device :
      (d : Device C)
      → parse (print d.config) ≡ object d.config
      → is_blank (trim (print d.config)) ≡ false
      → IsFilled d.branch_id
      → IsFilled d.model
      → IsFilled d.ip_address
      → IsFilled d.mac_address
      → let f = from_device print d in
        let b = edit_device f d.config in
        (handle_submit trim parse empty f ≡ submitted f d.config)
        × (b.name ≡ d.name)
        × (b.location_role ≡ d.location_role)
        × (b.is_active ≡ d.is_active)
        × (b.branch_id ≡ d.branch_id)
        × (b.model ≡ d.model)
        × (b.ip_address ≡ d.ip_address)
        × (b.mac_address ≡ d.mac_address)
  unfolding from_device edit_device handle_submit
  untouched_form_keeps_device d reads full branch model ip mac = ground (
    arith,
    reads,
    full,
    full_text-text_or_empty d.branch_id branch,
    full_text-text_or_empty d.model model,
    full_text-text_or_empty d.ip_address ip,
    full_text-text_or_empty d.mac_address mac,
  )
