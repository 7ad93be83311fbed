-- ===== src/Tenant/Quotas/Config.antt =====
-- The quota configuration and its validation. Tenants are checked in the order of the list, where
-- the source follows the order of its map.
use metrics_governor.Prelude.{
  ℕ, Bool, true, false, [], ◌∷◌, Option, none, some, String, if◌then◌else◌, ◌≡◌, refl,
}
use metrics_governor.Prelude.Eq.{string_eq}
use metrics_governor.Prelude.Map.{Map}

-- `no_action` is the empty text.
pub data QuotaAction : Type 0 where
  action_drop action_log action_adaptive no_action : QuotaAction
  unknown_action : String → QuotaAction

pub record GlobalQuota : Type 0 where
  pub max_datapoints : ℕ
  pub max_cardinality : ℕ
  pub action : QuotaAction
  pub window : String
  pub parsed_window : ℕ

pub record TenantQuota : Type 0 where
  pub max_datapoints : ℕ
  pub max_cardinality : ℕ
  pub action : QuotaAction
  pub window : String
  pub priority : ℕ
  pub parsed_window : ℕ

pub record QuotasConfig : Type 0 where
  pub global : Option GlobalQuota
  pub default : Option TenantQuota
  pub tenants : Map String TenantQuota

pub validate_action : QuotaAction → Bool
validate_action action_drop = true
validate_action action_log = true
validate_action action_adaptive = true
validate_action no_action = true
validate_action (unknown_action a) = false

abbrev pub or_1m : String → String
or_1m w = if string_eq.beq w "" then "1m" else w

-- `none` where the source returns an error.
module _ (parse_duration : String → Option ℕ) where
  set_window : TenantQuota → Option ℕ → Option TenantQuota
  unfolding validate_action
  set_window tq none = none
  set_window tq (some d) =
      if validate_action tq.action
      then some (record tq { window = or_1m tq.window; parsed_window = d })
      else none

  pub parse_and_validate : TenantQuota → Option TenantQuota
  unfolding set_window
  parse_and_validate tq = set_window tq (parse_duration (or_1m tq.window))

  set_global_window : GlobalQuota → Option ℕ → Option GlobalQuota
  unfolding validate_action
  set_global_window g none = none
  set_global_window g (some d) =
      if validate_action g.action
      then some (record g { window = or_1m g.window; parsed_window = d })
      else none

  validate_global : Option GlobalQuota → Option (Option GlobalQuota)
  unfolding set_global_window
  validate_global none = some none
  validate_global (some g) = elim (set_global_window g (parse_duration (or_1m g.window))) [
    | some g' ↦ some (some g')
    | none ↦ none
  ]

  validate_default : Option TenantQuota → Option (Option TenantQuota)
  unfolding parse_and_validate
  validate_default none = some none
  validate_default (some tq) = elim (parse_and_validate tq) [
    | some tq' ↦ some (some tq')
    | none ↦ none
  ]

  validate_tenants : Map String TenantQuota → Option (Map String TenantQuota)
  unfolding parse_and_validate
  validate_tenants [] = some []
  validate_tenants ((name, tq) ∷ tqs) =
      let rest = validate_tenants tqs in
      elim (parse_and_validate tq) [
        | some tq' ↦ elim rest [ some tqs' ↦ some ((name, tq') ∷ tqs') | none ↦ none ]
        | none ↦ none
      ]

  pub validate_quotas : QuotasConfig → Option QuotasConfig
  validate_quotas c = elim (validate_global c.global) [
    | none ↦ none
    | some g ↦ elim (validate_default c.default) [
      | none ↦ none
      | some d ↦ elim (validate_tenants c.tenants) [
        | none ↦ none
        | some ts ↦ some (record { global = g; default = d; tenants = ts })
      ]
    ]
  ]

abbrev unknown : QuotasConfig
unknown = record {
  global = none;
  default = some (record {
    max_datapoints = 1;
    max_cardinality = 0;
    action = unknown_action "x";
    window = "";
    priority = 0;
    parsed_window = 0;
  });
  tenants = [];
}

unknown_action_fails : validate_quotas (λ s. some 60) unknown ≡ none
unfolding validate_quotas validate_global validate_default parse_and_validate set_window
    validate_action
unknown_action_fails = refl
