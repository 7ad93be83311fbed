-- ===== src/Tenant/Quotas/Enforcer/Tests.antt =====
-- Quotas at concrete batches.
use metrics_governor.Prelude.{ℕ, ◌≡◌, refl, inr, List, [], ◌∷◌, none, some, String, arith, ltb→lt}
use metrics_governor.Prelude.Eq.{string_eq}
use metrics_governor.Prelude.Map.{lookup}
use metrics_governor.Tenant.Metrics.{DataPoint, gauge, ResourceMetrics, data_points}
use metrics_governor.Tenant.Detector.{label}
use metrics_governor.Tenant.Quotas.Config.{action_drop, action_adaptive, TenantQuota, QuotasConfig}
use metrics_governor.Tenant.Quotas.Series.{
  count_datapoints_and_series, count_metric_datapoints_and_keys, build_series_key, key_value,
  more_attributes, get_string_value, join,
}
use metrics_governor.Tenant.Quotas.Enforcer.{
  TenantWindow, Batch, new_quota_enforcer, contains, count_new_series, process_tenant_at,
  run_process, drops_global, stops, get_tenant_quota,
}
use metrics_governor.Tenant.Quotas.Enforcer.Global.{IsWithin, run_process-IsWithin}
use metrics_governor.Tenant.Quotas.Enforcer.Adaptive.{IsBounded}
use metrics_governor.Tenant.Quotas.Enforcer.Tenants.{window_of, run_process-IsBounded}
use metrics_governor.Tenant.Quotas.Enforcer.Kept.{adaptive_drops_all}

abbrev bits : ℕ → String
bits n = "1.5"

abbrev point : String → DataPoint
point v = record { attributes = label "pod" v ∷ []; payload = 0 }

-- One resource with two series of one metric.
abbrev pair : String → String → ResourceMetrics
pair a b = record {
  resource = none;
  scope_metrics =
      record { metrics = record { name = "up"; data_ = gauge (point a ∷ point b ∷ []) } ∷ [] } ∷ [];
}

abbrev adaptive : ℕ → ℕ → TenantQuota
adaptive d c = record {
  max_datapoints = d;
  max_cardinality = c;
  action = action_adaptive;
  window = "1m";
  priority = 1;
  parsed_window = 60;
}

abbrev config : QuotasConfig
config = record {
  global = some (record {
    max_datapoints = 7;
    max_cardinality = 5;
    action = action_drop;
    window = "1m";
    parsed_window = 60;
  });
  default = some (adaptive 3 0);
  tenants = ("acme", adaptive 4 2) ∷ [];
}

abbrev window : TenantWindow
window = record { datapoints = 1; cardinality = "up{pod=a}" ∷ []; window_end = 50 }

abbrev batches : List Batch
batches =
    record {
      now = 100;
      later = 101;
      tenant_id = "acme";
      rms = pair "a" "b" ∷ pair "c" "d" ∷ pair "e" "f" ∷ [];
    }
    ∷ record { now = 120; later = 121; tenant_id = "other"; rms = pair "a" "b" ∷ [] }
    ∷ []

series_key : build_series_key bits "up" (label "pod" "a" ∷ label "ns" "b" ∷ []) ≡ "up{pod=a,ns=b}"
unfolding build_series_key key_value more_attributes get_string_value
series_key = refl

run_process-IsWithin_example :
    IsWithin 7 5 (run_process bits (new_quota_enforcer 9 config) batches).global
unfolding new_quota_enforcer drops_global
run_process-IsWithin_example =
    run_process-IsWithin bits batches
      (record {
        max_datapoints = 7;
        max_cardinality = 5;
        action = action_drop;
        window = "1m";
        parsed_window = 60;
      })
      (new_quota_enforcer 9 config) refl refl
      (record { datapoints_bounded = inr (omega arith); cardinality_bounded = inr (omega arith) })

run_process-IsBounded_example :
    IsBounded 4
      (window_of (lookup "acme" (run_process bits (new_quota_enforcer 9 config) batches).tenants))
unfolding new_quota_enforcer stops get_tenant_quota
run_process-IsBounded_example =
    run_process-IsBounded bits batches (new_quota_enforcer 9 config) "acme" (adaptive 4 2) refl refl
      (inr (omega arith))

abbrev two_pairs : List ResourceMetrics
two_pairs = pair "a" "b" ∷ pair "c" "d" ∷ []

adaptive_drops_all_example : (process_tenant_at bits 10 (adaptive 0 2) two_pairs window).1 ≡ []
unfolding count_new_series count_datapoints_and_series count_metric_datapoints_and_keys join
    build_series_key key_value more_attributes get_string_value data_points contains
adaptive_drops_all_example =
    adaptive_drops_all bits 10 (adaptive 0 2) two_pairs window refl (omega arith) refl (omega arith)
      (ltb→lt 2 4 refl)
