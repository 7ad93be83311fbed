-- ===== src/Tenant/Pipeline.antt =====
-- `Pipeline` of internal/tenant/pipeline.go, which satisfies the buffer's interface of tenant processors. A range over the map of
-- tenants visits its entries in some order: `order` gives that order of the entries. `clock` gives the
-- readings of the clock in the order in which they are made, two for each tenant.
pub mod Laws
mod Tests
use metrics_governor.Prelude.{
  ℕ, ◌+◌, Bool, true, false, List, [], ◌∷◌, ◌++◌, map, Option, none, some, String, if◌then◌else◌,
}
use metrics_governor.Tenant.Metrics.{ResourceMetrics}
use metrics_governor.Tenant.Detector.{
  Config, ConfigError, reload_config, Buckets, detect_tenant, annotate, detect_and_annotate,
}
use metrics_governor.Tenant.Quotas.Enforcer.{QuotaEnforcer, process}

pub record Pipeline : Type 0 where
  pub detector : Option Config
  pub quotas : Option QuotaEnforcer

-- The elements of the batch after DetectAndAnnotate has changed them in place.
unfoldable pub annotated : Config → String → List ResourceMetrics → List ResourceMetrics
annotated c header_tenant rms = map (λ rm. annotate c (detect_tenant c header_tenant rm) rm) rms

module _ (sprint_double : ℕ → String) (order : Buckets → Buckets) (clock : ℕ → ℕ) where
  -- The loop over the tenants, from reading `i` of the clock on.
  unfoldable pub process_buckets :
      ℕ → Buckets → QuotaEnforcer → QuotaEnforcer × List ResourceMetrics
  process_buckets i [] qe = (qe, [])
  process_buckets i ((tenant_id, rms) ∷ buckets) qe =
      let r = process sprint_double (clock i) (clock (i + 1)) tenant_id rms qe in
      let rest = process_buckets (i + 2) buckets r.0 in (rest.0, r.1 ++ rest.1)

  unfoldable pub process_quotas :
      Option QuotaEnforcer
      → Config
      → List ResourceMetrics
      → String
      → Option QuotaEnforcer × List ResourceMetrics
  process_quotas none c rms header_tenant = (none, annotated c header_tenant rms)
  process_quotas (some qe) c rms header_tenant =
      let r = process_buckets 0 (order (detect_and_annotate c rms header_tenant)) qe in
      (some r.0, r.1)

  unfoldable pub process_with :
      Option Config → Pipeline → List ResourceMetrics → String → Pipeline × List ResourceMetrics
  process_with none p rms header_tenant = (p, rms)
  process_with (some c) p rms header_tenant =
      if c.enabled
      then (let r = process_quotas p.quotas c rms header_tenant in (record p { quotas = r.0 }, r.1))
      else (p, rms)

  -- `ProcessBatch`
  unfoldable pub process_batch :
      Pipeline → List ResourceMetrics → String → Pipeline × List ResourceMetrics
  process_batch p rms header_tenant = process_with p.detector p rms header_tenant

unfoldable pub set_quota_enforcer : Pipeline → Option QuotaEnforcer → Pipeline
set_quota_enforcer p quotas = record p { quotas = quotas }

-- `ReloadDetector`; `none` where there is no detector, whose method panics.
unfoldable pub reload_detector : Pipeline → Config → Option (Pipeline × Option ConfigError)
reload_detector p cfg = elim p.detector [
  | none ↦ none
  | some c ↦ let r = reload_config c cfg in some (record p { detector = some r.0 }, r.1)
]
