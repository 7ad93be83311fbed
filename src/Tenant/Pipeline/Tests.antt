-- ===== src/Tenant/Pipeline/Tests.antt =====
-- Two tenants go through the pipeline.
use metrics_governor.Prelude.{ℕ, ◌+◌, true, List, [], ◌∷◌, none, some, String}
use metrics_governor.Tenant.Metrics.{ResourceMetrics, DataPoint, gauge}
use metrics_governor.Tenant.Detector.{default_config, label, Buckets}
use metrics_governor.Tenant.Quotas.Config.{GlobalQuota, action_drop}
use metrics_governor.Tenant.Quotas.Enforcer.{QuotaEnforcer, empty_window}
use metrics_governor.Tenant.Pipeline.{Pipeline}
use metrics_governor.Tenant.Pipeline.Laws.{Call}

abbrev bits : ℕ → String
bits n = "1.5"

abbrev quota : GlobalQuota
quota = record {
  max_datapoints = 3;
  max_cardinality = 2;
  action = action_drop;
  window = "1m";
  parsed_window = 60;
}

abbrev enforcer : QuotaEnforcer
enforcer = record {
  config = record { global = some quota; default = none; tenants = [] };
  tenants = [];
  global = empty_window;
  reload_count = 0;
  last_reload_utc = 0;
}

abbrev pipeline : Pipeline
pipeline = record {
  detector = some (record default_config { enabled = true });
  quotas = some enforcer;
}

abbrev point : String → DataPoint
point v = record { attributes = label "pod" v ∷ []; payload = 0 }

abbrev batch : List ResourceMetrics
batch =
    record {
      resource = none;
      scope_metrics =
          record {
            metrics = record { name = "up"; data_ = gauge (point "a" ∷ point "b" ∷ []) } ∷ [];
          }
          ∷ [];
    }
    ∷ []

abbrev call : String → ℕ → Call
call tenant from = record {
  order = λ (b : Buckets). b;
  clock = λ i. from + i;
  rms = batch;
  header_tenant = tenant;
}
