-- ===== src/Kpi/Template.antt =====
-- The form of an indicator's template: admin-web/src/pages/app/kpi/TemplateFormDialog.tsx, over
-- `KPITemplate` of admin-web/src/lib/types.ts.
use hr_profi_uz.Common.{
  ℕ, ◌++◌, List, Option, [], String, Bool, false, if◌then◌else◌, ◌∷◌, some, is_blank, suc, none,
  true, zero,
}
use hr_profi_uz.Users.Form.{text_or_empty, full_text}

pub data KpiCategory : Type 0 where
  attendance sales tasks quality manager_review goal custom : KpiCategory

pub data MetricSource : Type 0 where
  auto manual hybrid : MetricSource

pub data RewardType : Type 0 where
  fixed percent_of_salary per_unit tiered penalty_percent : RewardType

pub data KpiPeriodKind : Type 0 where
  monthly quarterly weekly : KpiPeriodKind

pub record KpiTierBracket : Type 0 where
  pub from_pct : String
  pub to_pct : String
  pub multiplier : String

pub record KpiTemplate : Type 0 where
  pub id : String
  pub company_id : String
  pub name : String
  pub description : Option String
  pub category : KpiCategory
  pub metric_source : MetricSource
  pub formula : String
  pub target_value : String
  pub unit : Option String
  pub weight : String
  pub period_kind : KpiPeriodKind
  pub min_threshold_pct : String
  pub max_score_cap_pct : Option String
  pub reward_type : RewardType
  pub reward_amount : String
  pub tiers : Option (List KpiTierBracket)
  pub requires_manager_review : Bool
  pub is_active : Bool
  pub created_at : String
  pub updated_at : String

pub record FormState : Type 0 where
  pub name : String
  pub description : String
  pub category : KpiCategory
  pub metric_source : MetricSource
  pub formula : String
  pub target_value : String
  pub unit : String
  pub weight : String
  pub period_kind : KpiPeriodKind
  pub min_threshold_pct : String
  pub max_score_cap_pct : String
  pub reward_type : RewardType
  pub reward_amount : String
  pub tiers : List KpiTierBracket
  pub requires_manager_review : Bool
  pub is_active : Bool

abbrev pub empty_form : FormState
empty_form = record {
  name = "";
  description = "";
  category = attendance;
  metric_source = auto;
  formula = "(present_days / max(work_days, 1)) * 100";
  target_value = "100";
  unit = "%";
  weight = "1";
  period_kind = monthly;
  min_threshold_pct = "0";
  max_score_cap_pct = "";
  reward_type = fixed;
  reward_amount = "0";
  tiers = [];
  requires_manager_review = false;
  is_active = true;
}

abbrev pub tiers_or_none : Option (List KpiTierBracket) → List KpiTierBracket
tiers_or_none none = []
tiers_or_none (some tiers) = tiers

-- The effect that fills the form.
unfoldable pub template_to_form : Option KpiTemplate → FormState
template_to_form none = empty_form
template_to_form (some t) = record {
  name = t.name;
  description = text_or_empty t.description;
  category = t.category;
  metric_source = t.metric_source;
  formula = t.formula;
  target_value = t.target_value;
  unit = text_or_empty t.unit;
  weight = t.weight;
  period_kind = t.period_kind;
  min_threshold_pct = t.min_threshold_pct;
  max_score_cap_pct = text_or_empty t.max_score_cap_pct;
  reward_type = t.reward_type;
  reward_amount = t.reward_amount;
  tiers = tiers_or_none t.tiers;
  requires_manager_review = t.requires_manager_review;
  is_active = t.is_active;
}

-- The body of the request; `is_active` is sent when a template is edited.
pub record Payload : Type 0 where
  pub name : String
  pub description : Option String
  pub category : KpiCategory
  pub metric_source : MetricSource
  pub formula : String
  pub target_value : String
  pub unit : Option String
  pub weight : String
  pub period_kind : KpiPeriodKind
  pub min_threshold_pct : String
  pub max_score_cap_pct : Option String
  pub reward_type : RewardType
  pub reward_amount : String
  pub tiers : Option (List KpiTierBracket)
  pub requires_manager_review : Bool
  pub is_active : Option Bool

-- `text || default`
abbrev pub or_default : String → String → String
or_default s default = if is_blank s then default else s

abbrev pub tiers_of : RewardType → List KpiTierBracket → Option (List KpiTierBracket)
tiers_of tiered tiers = some tiers
tiers_of _ tiers = none

-- `saveMut`
unfoldable pub payload : Bool → FormState → Payload
payload is_edit f = record {
  name = f.name;
  description = full_text f.description;
  category = f.category;
  metric_source = f.metric_source;
  formula = f.formula;
  target_value = or_default f.target_value "0";
  unit = full_text f.unit;
  weight = or_default f.weight "1";
  period_kind = f.period_kind;
  min_threshold_pct = or_default f.min_threshold_pct "0";
  max_score_cap_pct = full_text f.max_score_cap_pct;
  reward_type = f.reward_type;
  reward_amount = or_default f.reward_amount "0";
  tiers = tiers_of f.reward_type f.tiers;
  requires_manager_review = f.requires_manager_review;
  is_active = if is_edit then some f.is_active else none;
}

-- `addTier`
unfoldable pub add_tier : FormState → FormState
add_tier f = record f {
  tiers = f.tiers ++ record { from_pct = "0"; to_pct = "100"; multiplier = "1" } ∷ [];
}

-- `tiers.map` with a patch at one position
abbrev pub patch_at :
    ℕ → (KpiTierBracket → KpiTierBracket) → List KpiTierBracket → List KpiTierBracket
patch_at i patch [] = []
patch_at zero patch (t ∷ tiers) = patch t ∷ tiers
patch_at (suc i) patch (t ∷ tiers) = t ∷ patch_at i patch tiers

-- `tiers.filter` without one position
abbrev pub drop_at : ℕ → List KpiTierBracket → List KpiTierBracket
drop_at i [] = []
drop_at zero (t ∷ tiers) = tiers
drop_at (suc i) (t ∷ tiers) = t ∷ drop_at i tiers

unfoldable pub update_tier : ℕ → (KpiTierBracket → KpiTierBracket) → FormState → FormState
update_tier i patch f = record f { tiers = patch_at i patch f.tiers }

unfoldable pub remove_tier : ℕ → FormState → FormState
remove_tier i f = record f { tiers = drop_at i f.tiers }
