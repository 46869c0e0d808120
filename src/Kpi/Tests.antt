-- ===== src/Kpi/Tests.antt =====
-- The assignment to many at a concrete tab, and the tiers of a template.
use hr_profi_uz.Departments.Picker.{member}
use hr_profi_uz.Common.{◌≡◌, [], List, refl, true, String, some, ◌∷◌}
use hr_profi_uz.Kpi.Template.{empty_form, add_tier, remove_tier}
use hr_profi_uz.Kpi.Bulk.{Tab, Mode, bulk_payload, set_mode, toggle_pick}
use hr_profi_uz.Kpi.Picking.{
  Reach, picks_stay_options, IsValid, step, choose, pick, picked_one, chosen, start,
}

abbrev tab : Tab
tab = record {
  template_id = "k1";
  year = 2026;
  month = 5;
  target = "";
  mode = Mode.branches;
  picked = [];
  skip_existing = true;
}

abbrev options : Mode → List String
options Mode.branches = "b1" ∷ "b2" ∷ []
options Mode.departments = "d1" ∷ []
options Mode.employees = []

abbrev reached : Tab
reached = step (pick "d1") (step (choose Mode.departments) (step (pick "b2") tab))

payload_run : (bulk_payload (some "90") reached).target ≡ "90"
unfolding bulk_payload set_mode toggle_pick
payload_run = refl

tiers_run : (remove_tier 0 (add_tier (add_tier empty_form))).tiers ≡ (add_tier empty_form).tiers
unfolding remove_tier add_tier
tiers_run = refl

reached-Reach : Reach options tab reached
unfolding member set_mode toggle_pick
reached-Reach = picked_one _ "d1" refl (chosen _ Mode.departments (picked_one _ "b2" refl start))

picks_stay_options_example : IsValid options reached
picks_stay_options_example = picks_stay_options options tab reached refl reached-Reach
