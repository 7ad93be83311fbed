-- ===== src/Tenant/Quotas/Enforcer/Kept.antt =====
-- Which part of a batch goes on, and the limit on series under the adaptive action.
use metrics_governor.Prelude.{
  ℕ, ◌+◌, ◌-◌, ◌≤◌, ◌<◌, ◌≡◌, refl, sym, ap, subst, Bool, true, false, List, [], ◌∷◌, Option, none,
  some, String, length, take, arith,
}
use metrics_governor.Prelude.Eq.{string_eq}
use metrics_governor.Prelude.Map.{Map, lookup}
use metrics_governor.Tenant.Metrics.{ResourceMetrics}
use metrics_governor.Tenant.Quotas.Series.{count_rm_datapoints}
use metrics_governor.Tenant.Quotas.Config.{
  QuotaAction, action_drop, action_log, action_adaptive, no_action, unknown_action, TenantQuota,
}
use metrics_governor.Tenant.Quotas.Enforcer.{
  TenantWindow, QuotaEnforcer, get_or_create_window, get_tenant_quota, renew, exceeded, stops,
  filter_tenant, adaptive_filter, keep_until, track_kept, process_tenant_at, process_tenant,
  process, count, count_new_series, is_empty,
}
use metrics_governor.Tenant.Quotas.Enforcer.Adaptive.{keep_until-prefix, datapoints_of}
use metrics_governor.Tenant.Quotas.Enforcer.Tenants.{if_elim}

-- A beginning of a batch.
abbrev pub IsPrefix : List ResourceMetrics → List ResourceMetrics → Type 0
IsPrefix xs rms = xs ≡ take (length xs) rms

IsPrefix-refl : (rms : List ResourceMetrics) → IsPrefix rms rms
IsPrefix-refl [] = refl
IsPrefix-refl (rm ∷ rms) = ap (λ l. rm ∷ l) (IsPrefix-refl rms)

adaptive_filter-IsPrefix :
    (rms : List ResourceMetrics) (w : TenantWindow) (tq : TenantQuota)
    → IsPrefix (adaptive_filter rms w tq) rms
unfolding adaptive_filter
adaptive_filter-IsPrefix rms w tq =
    ground (arith, keep_until-prefix (tq.max_datapoints - w.datapoints) 0 rms)

filter_tenant-IsPrefix :
    (a : QuotaAction) (rms : List ResourceMetrics) (w : TenantWindow) (tq : TenantQuota)
    → IsPrefix (filter_tenant a tq w rms) rms
unfolding filter_tenant
filter_tenant-IsPrefix action_drop rms w tq = refl
filter_tenant-IsPrefix action_log rms w tq = IsPrefix-refl rms
filter_tenant-IsPrefix action_adaptive rms w tq = adaptive_filter-IsPrefix rms w tq
filter_tenant-IsPrefix no_action rms w tq = adaptive_filter-IsPrefix rms w tq
filter_tenant-IsPrefix (unknown_action x) rms w tq = IsPrefix-refl rms

module _ (sprint_double : ℕ → String) where
  track_kept_output :
      (w : TenantWindow) (stop : Bool) (kept : List ResourceMetrics)
      → (track_kept sprint_double w stop kept).1 ≡ kept
  unfolding track_kept is_empty
  track_kept_output w true [] = refl
  track_kept_output w true (rm ∷ kept) = refl
  track_kept_output w false kept = refl

  track_kept-IsPrefix :
      (rms kept : List ResourceMetrics) (w : TenantWindow) (stop : Bool)
      → IsPrefix kept rms
      → IsPrefix (track_kept sprint_double w stop kept).1 rms
  track_kept-IsPrefix rms kept w stop h =
      subst (λ xs. IsPrefix xs rms) (sym (track_kept_output w stop kept)) h

  process_tenant_at-IsPrefix :
      (now : ℕ) (tq : TenantQuota) (rms : List ResourceMetrics) (w : TenantWindow)
      → IsPrefix (process_tenant_at sprint_double now tq rms w).1 rms
  unfolding process_tenant_at
  process_tenant_at-IsPrefix now tq rms w =
      let w' = renew now tq.parsed_window w in
      if_elim (λ (r : TenantWindow × List ResourceMetrics). IsPrefix r.1 rms)
        (exceeded tq.max_datapoints tq.max_cardinality w' (count sprint_double rms).0
          (count sprint_double rms).1)
        (track_kept sprint_double w' (stops tq.action) (filter_tenant tq.action tq w' rms))
        (track_kept sprint_double w' false rms)
        (track_kept-IsPrefix rms (filter_tenant tq.action tq w' rms) w' (stops tq.action)
          (filter_tenant-IsPrefix tq.action rms w' tq))
        (track_kept-IsPrefix rms rms w' false (IsPrefix-refl rms))

  process_tenant-IsPrefix :
      (now later : ℕ) (t : String) (o : Option TenantQuota) (rms : List ResourceMetrics)
      (ts : Map String TenantWindow)
      → IsPrefix (process_tenant sprint_double now later t o rms ts).1 rms
  unfolding process_tenant
  process_tenant-IsPrefix now later t none rms ts = IsPrefix-refl rms
  process_tenant-IsPrefix now later t (some tq) rms ts = ground (
    arith,
    IsPrefix-refl rms,
    process_tenant_at-IsPrefix now tq rms (get_or_create_window later tq (lookup t ts)),
  )

  -- Whatever the limits and actions are, what goes on of a batch is a beginning of it, with every
  -- element whole and unchanged.
  process-IsPrefix :
      (now later : ℕ) (t : String) (rms : List ResourceMetrics) (qe : QuotaEnforcer)
      → IsPrefix (process sprint_double now later t rms qe).1 rms
  unfolding process
  process-IsPrefix now later t rms qe =
      ground
        (arith, process_tenant-IsPrefix now later t (get_tenant_quota qe.config t) rms qe.tenants)

  keep_until_all :
      (remaining kept : ℕ) (rms : List ResourceMetrics)
      → kept + datapoints_of rms ≤ remaining
      → keep_until remaining kept rms ≡ rms
  unfolding keep_until
  keep_until_all remaining kept [] h = refl
  keep_until_all remaining kept (rm ∷ rms) h =
      ground (arith, keep_until_all remaining (kept + count_rm_datapoints rm) rms)

  adaptive_filter_all :
      (rms : List ResourceMetrics) (w : TenantWindow) (tq : TenantQuota)
      → w.datapoints < tq.max_datapoints
      → w.datapoints + datapoints_of rms ≤ tq.max_datapoints
      → adaptive_filter rms w tq ≡ rms
  unfolding adaptive_filter
  adaptive_filter_all rms w tq p h =
      ground (arith, keep_until_all (tq.max_datapoints - w.datapoints) 0 rms)

  -- Under the adaptive action the limit on series is not enforced while the data points fit: a batch
  -- whose data points fit into the running window goes on whole, however many new series it has.
  adaptive_ignores_cardinality :
      (now : ℕ) (tq : TenantQuota) (rms : List ResourceMetrics) (w : TenantWindow)
      → tq.action ≡ action_adaptive
      → now ≤ w.window_end
      → w.datapoints < tq.max_datapoints
      → w.datapoints + datapoints_of rms ≤ tq.max_datapoints
      → (process_tenant_at sprint_double now tq rms w).1 ≡ rms
  unfolding process_tenant_at renew filter_tenant
  adaptive_ignores_cardinality now tq rms w a e p h = ground (
    arith,
    adaptive_filter_all rms w tq p h,
    track_kept_output w true rms,
    track_kept_output w false rms,
  )

  -- Under the adaptive action with a limit on series and none on data points, a batch that brings the
  -- number of series over the limit is dropped whole, also the part of it with known series.
  pub adaptive_drops_all :
      (now : ℕ) (tq : TenantQuota) (rms : List ResourceMetrics) (w : TenantWindow)
      → tq.action ≡ action_adaptive
      → now ≤ w.window_end
      → tq.max_datapoints ≡ 0
      → 0 < tq.max_cardinality
      → tq.max_cardinality
        < length w.cardinality + count_new_series w.cardinality (count sprint_double rms).1
      → (process_tenant_at sprint_double now tq rms w).1 ≡ []
  unfolding process_tenant_at renew filter_tenant adaptive_filter exceeded
  adaptive_drops_all now tq rms w a e p q h = ground (arith, track_kept_output w true [])
