-- ===== src/Tenant/Quotas/Enforcer/Global.antt =====
-- The global limits.
use metrics_governor.Prelude.{
  ℕ, ◌≤◌, ◌≡◌, ◌∙◌, sym, subst, ap, refl, Bool, true, false, ◌⊎◌, List, [], ◌∷◌, Option, none, some,
  String, length, arith, if◌then◌else◌,
}
use metrics_governor.Tenant.Metrics.{ResourceMetrics}
use metrics_governor.Tenant.Quotas.Config.{GlobalQuota, TenantQuota}
use metrics_governor.Tenant.Quotas.Enforcer.{
  TenantWindow, QuotaEnforcer, Batch, renew, exceeded, track, drops_global, refuses_global,
  process_global_at, process_global, process, run_process, count, get_tenant_quota,
}
use metrics_governor.Tenant.Quotas.Enforcer.Series.{length-add_series}

-- Both limits hold, where 0 is no limit.
pub record IsWithin (max_datapoints max_cardinality : ℕ) (w : TenantWindow) : Type 0 where
  pub datapoints_bounded : (max_datapoints ≡ 0) ⊎ (w.datapoints ≤ max_datapoints)
  pub cardinality_bounded : (max_cardinality ≡ 0) ⊎ (length w.cardinality ≤ max_cardinality)

pub renew-IsWithin :
    (m n now d : ℕ) (w : TenantWindow) → IsWithin m n w → IsWithin m n (renew now d w)
unfolding renew
renew-IsWithin m n now d w v = ground arith

pub track-IsWithin :
    (m n dp_count : ℕ) (keys : List String) (w : TenantWindow)
    → exceeded m n w dp_count keys ≡ false
    → IsWithin m n (track w dp_count keys)
unfolding exceeded track
track-IsWithin m n dp_count keys w h = ground (arith, length-add_series w.cardinality keys)

process_global_at-IsWithin :
    (now : ℕ) (g : GlobalQuota) (tq : Option TenantQuota) (dp_count : ℕ) (keys : List String)
    (w : TenantWindow)
    → drops_global g.action ≡ true
    → IsWithin g.max_datapoints g.max_cardinality w
    → IsWithin g.max_datapoints g.max_cardinality (process_global_at now g tq dp_count keys w).0
unfolding process_global_at refuses_global
process_global_at-IsWithin now g tq dp_count keys w a v = ground (
  arith,
  renew-IsWithin g.max_datapoints g.max_cardinality now g.parsed_window w v,
  track-IsWithin g.max_datapoints g.max_cardinality dp_count keys (renew now g.parsed_window w),
)

process_global-IsWithin :
    (now : ℕ) (g : GlobalQuota) (o : Option GlobalQuota) (tq : Option TenantQuota) (dp_count : ℕ)
    (keys : List String) (w : TenantWindow)
    → o ≡ some g
    → drops_global g.action ≡ true
    → IsWithin g.max_datapoints g.max_cardinality w
    → IsWithin g.max_datapoints g.max_cardinality (process_global now o tq dp_count keys w).0
unfolding process_global
process_global-IsWithin now g none tq dp_count keys w o a v = cc
process_global-IsWithin now g (some h) tq dp_count keys w o a v =
    ground (arith, process_global_at-IsWithin now g tq dp_count keys w a v)

pub on_both {ℓ κ} :
    {A : Type ℓ} {B : Type κ} (f : A → B) (b : Bool) (x y : A) (z : B)
    → f x ≡ z
    → f y ≡ z
    → f (if b then x else y) ≡ z
on_both f true x y z h k = h
on_both f false x y z h k = k

module _ (sprint_double : ℕ → String) (b : Batch) (qe : QuotaEnforcer) where
  abbrev after : QuotaEnforcer
  after = (process sprint_double b.now b.later b.tenant_id b.rms qe).0

  pub process-config : after.config ≡ qe.config
  unfolding process
  process-config =
      on_both (λ (r : QuotaEnforcer × List ResourceMetrics). r.0.config) _ _ _ _ refl refl

  process-global :
      after.global
      ≡ (process_global b.now qe.config.global
          (get_tenant_quota qe.config b.tenant_id)
          (count sprint_double b.rms).0
          (count sprint_double b.rms).1
          qe.global).0
  unfolding process
  process-global =
      on_both (λ (r : QuotaEnforcer × List ResourceMetrics). r.0.global) _ _ _ _ refl refl

  process-IsWithin :
      (g : GlobalQuota)
      → qe.config.global ≡ some g
      → drops_global g.action ≡ true
      → IsWithin g.max_datapoints g.max_cardinality qe.global
      → IsWithin g.max_datapoints g.max_cardinality after.global
  process-IsWithin g c a v =
      subst (IsWithin g.max_datapoints g.max_cardinality) (sym process-global) (
        process_global-IsWithin b.now g qe.config.global (get_tenant_quota qe.config b.tenant_id)
          (count sprint_double b.rms).0 (count sprint_double b.rms).1 qe.global c a v)

-- Under the global action drop, or none, a window within the global limits is within them after any
-- sequence of batches.
pub run_process-IsWithin :
    (sprint_double : ℕ → String) (bs : List Batch) (g : GlobalQuota) (qe : QuotaEnforcer)
    → qe.config.global ≡ some g
    → drops_global g.action ≡ true
    → IsWithin g.max_datapoints g.max_cardinality qe.global
    → IsWithin g.max_datapoints g.max_cardinality (run_process sprint_double qe bs).global
unfolding run_process
run_process-IsWithin sprint_double [] g qe c a v = v
run_process-IsWithin sprint_double (b ∷ bs) g qe c a v =
    run_process-IsWithin sprint_double bs g
      (process sprint_double b.now b.later b.tenant_id b.rms qe).0
      (ap (λ c. c.global) (process-config sprint_double b qe) ∙ c) a
      (process-IsWithin sprint_double b qe g c a v)
