-- ===== src/Kpi/Saving.antt =====
-- What the form of a template sends (admin-web/src/pages/app/kpi/TemplateFormDialog.tsx).
use hr_profi_uz.Common.{String, is_blank, ◌≡◌, false, true, refl, some}
use hr_profi_uz.Kpi.Template.{
  KpiTemplate, template_to_form, payload, tiers_of, tiers_or_none, or_default,
}
use hr_profi_uz.Users.Saving.{IsFilled, full_text-text_or_empty}

or_default-full : (s default : String) → is_blank s ≡ false → or_default s default ≡ s
or_default-full s default h = rw h refl

-- Saving a template that was opened and not touched sends its own values, if none of its texts that
-- the form may leave out is blank, and its tiers exactly when they are what rewards it.
untouched_form_keeps_template :
    (t : KpiTemplate)
    → IsFilled t.description
    → IsFilled t.unit
    → IsFilled t.max_score_cap_pct
    → is_blank t.target_value ≡ false
    → is_blank t.weight ≡ false
    → is_blank t.min_threshold_pct ≡ false
    → is_blank t.reward_amount ≡ false
    → payload true (template_to_form (some t)) ≡ record {
      name = t.name;
      description = t.description;
      category = t.category;
      metric_source = t.metric_source;
      formula = t.formula;
      target_value = t.target_value;
      unit = t.unit;
      weight = t.weight;
      period_kind = t.period_kind;
      min_threshold_pct = t.min_threshold_pct;
      max_score_cap_pct = t.max_score_cap_pct;
      reward_type = t.reward_type;
      reward_amount = t.reward_amount;
      tiers = tiers_of t.reward_type (tiers_or_none t.tiers);
      requires_manager_review = t.requires_manager_review;
      is_active = some t.is_active;
    }
unfolding payload template_to_form
untouched_form_keeps_template t d u c tv w m r =
    rw
      (
        full_text-text_or_empty t.description d,
        full_text-text_or_empty t.unit u,
        full_text-text_or_empty t.max_score_cap_pct c,
        tv,
        w,
        m,
        r,
      )
      refl
