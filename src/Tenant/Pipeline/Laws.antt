-- ===== src/Tenant/Pipeline/Laws.antt =====
-- The limits of the enforcer seen through the pipeline.
use metrics_governor.Prelude.{
  ℕ, ◌+◌, ◌≡◌, refl, sym, ap, ◌∙◌, subst, Bool, true, false, List, [], ◌∷◌, Option, none, some,
  String, if◌then◌else◌,
}
use metrics_governor.Tenant.Metrics.{ResourceMetrics}
use metrics_governor.Tenant.Detector.{Config, Buckets, detect_and_annotate}
use metrics_governor.Tenant.Quotas.Config.{GlobalQuota}
use metrics_governor.Tenant.Quotas.Enforcer.{
  QuotaEnforcer, Batch, process, run_process, drops_global,
}
use metrics_governor.Tenant.Quotas.Enforcer.Global.{IsWithin, run_process-IsWithin, process-config}
use metrics_governor.Tenant.Pipeline.{
  Pipeline, process_buckets, process_quotas, process_with, process_batch,
}

-- The batches that the loop over the tenants hands to the enforcer.
unfoldable pub batches_of : (ℕ → ℕ) → ℕ → Buckets → List Batch
batches_of clock i [] = []
batches_of clock i ((t, rms) ∷ buckets) =
    record { now = clock i; later = clock (i + 1); tenant_id = t; rms = rms }
    ∷ batches_of clock (i + 2) buckets

-- A call of ProcessBatch, with the order and the clock that it meets.
pub record Call : Type 0 where
  pub order : Buckets → Buckets
  pub clock : ℕ → ℕ
  pub rms : List ResourceMetrics
  pub header_tenant : String

-- The enforcer has the global quota, and its window is within it.
abbrev pub Holds : GlobalQuota → Option QuotaEnforcer → Type 0
Holds g none = Unit
Holds g (some qe) =
    (qe.config.global ≡ some g) × IsWithin g.max_datapoints g.max_cardinality qe.global

module _ (sprint_double : ℕ → String) where
  process_buckets-run_process :
      (order : Buckets → Buckets) (clock : ℕ → ℕ) (i : ℕ) (buckets : Buckets) (qe : QuotaEnforcer)
      → (process_buckets sprint_double order clock i buckets qe).0
        ≡ run_process sprint_double qe (batches_of clock i buckets)
  unfolding process_buckets batches_of run_process
  process_buckets-run_process order clock i [] qe = refl
  process_buckets-run_process order clock i ((t, rms) ∷ buckets) qe =
      process_buckets-run_process order clock (i + 2) buckets
        (process sprint_double (clock i) (clock (i + 1)) t rms qe).0

  run_process-config :
      (bs : List Batch) (qe : QuotaEnforcer) → (run_process sprint_double qe bs).config ≡ qe.config
  unfolding run_process
  run_process-config [] qe = refl
  run_process-config (b ∷ bs) qe =
      run_process-config bs (process sprint_double b.now b.later b.tenant_id b.rms qe).0
      ∙ process-config sprint_double b qe

  unfoldable pub run : Pipeline → List Call → Pipeline
  run p [] = p
  run p (c ∷ cs) = run (process_batch sprint_double c.order c.clock p c.rms c.header_tenant).0 cs

  process_quotas-Holds :
      (g : GlobalQuota) (c : Call) (d : Config) (o : Option QuotaEnforcer)
      → drops_global g.action ≡ true
      → Holds g o
      → Holds g (process_quotas sprint_double c.order c.clock o d c.rms c.header_tenant).0
  unfolding process_quotas
  process_quotas-Holds g c d none a h = tt
  process_quotas-Holds g c d (some qe) a h =
      let bs = batches_of c.clock 0 (c.order (detect_and_annotate d c.rms c.header_tenant)) in
      subst (λ q. Holds g (some q))
        (sym (
          process_buckets-run_process c.order c.clock 0
            (c.order (detect_and_annotate d c.rms c.header_tenant)) qe))
        (
          ap (λ k. k.global) (run_process-config bs qe) ∙ h.0,
          run_process-IsWithin sprint_double bs g qe h.0 a h.1,
        )

  either-Holds :
      (g : GlobalQuota) (b : Bool) (x y : Pipeline × List ResourceMetrics)
      → Holds g x.0.quotas
      → Holds g y.0.quotas
      → (let r = if b then x else y in Holds g r.0.quotas)
  either-Holds g true x y h k = h
  either-Holds g false x y h k = k

  process_with-Holds :
      (g : GlobalQuota) (c : Call) (o : Option Config) (p : Pipeline)
      → drops_global g.action ≡ true
      → Holds g p.quotas
      → Holds g (process_with sprint_double c.order c.clock o p c.rms c.header_tenant).0.quotas
  unfolding process_with
  process_with-Holds g c none p a h = h
  process_with-Holds g c (some d) p a h =
      let r = process_quotas sprint_double c.order c.clock p.quotas d c.rms c.header_tenant in
      either-Holds g d.enabled (record p { quotas = r.0 }, r.1) (p, c.rms)
        (process_quotas-Holds g c d p.quotas a h) h

  -- Where the global action of the enforcer is drop, or none, and its window is within the global limits at the
  -- start, it is within them after every sequence of batches that go through the pipeline, whatever tenants
  -- they have and in whatever order the range over the tenants visits them.
  run_pipeline-Holds :
      (g : GlobalQuota) (p : Pipeline) (cs : List Call)
      → drops_global g.action ≡ true
      → Holds g p.quotas
      → Holds g (run p cs).quotas
  unfolding run process_batch
  run_pipeline-Holds g p [] a h = h
  run_pipeline-Holds g p (c ∷ cs) a h =
      run_pipeline-Holds g (process_batch sprint_double c.order c.clock p c.rms c.header_tenant).0
        cs a (process_with-Holds g c p.detector p a h)
