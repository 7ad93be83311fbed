-- ===== src/Tenant/Quotas/Enforcer/Adaptive.antt =====
-- What the limits of a tenant leave of a batch.
use metrics_governor.Prelude.{
  ℕ, suc, ◌+◌, ◌-◌, ◌≤◌, ◌<◌, ◌≡◌, refl, Bool, true, false, ◌⊎◌, inl, inr, List, [], ◌∷◌, String,
  length, take, Bool-cases, sum_map, arith,
}
use metrics_governor.Tenant.Metrics.{ResourceMetrics}
use metrics_governor.Tenant.Quotas.Config.{
  QuotaAction, action_drop, action_log, action_adaptive, no_action, unknown_action, TenantQuota,
}
use metrics_governor.Tenant.Quotas.Series.{count_rm_datapoints, count_datapoints_and_series_lem}
use metrics_governor.Tenant.Quotas.Enforcer.{
  TenantWindow, renew, exceeded, track, stops, filter_tenant, keep_until, adaptive_filter,
  track_kept, process_tenant_at, count,
}

abbrev pub datapoints_of : List ResourceMetrics → ℕ
datapoints_of rms = sum_map count_rm_datapoints rms

keep_until_bound :
    (remaining kept : ℕ) (rms : List ResourceMetrics)
    → kept ≤ remaining
    → kept + datapoints_of (keep_until remaining kept rms) ≤ remaining
unfolding keep_until
keep_until_bound remaining kept [] h = omega arith
keep_until_bound remaining kept (rm ∷ rms) h =
    ground (arith, keep_until_bound remaining (kept + count_rm_datapoints rm) rms)

pub keep_until-prefix :
    (remaining kept : ℕ) (rms : List ResourceMetrics)
    → keep_until remaining kept rms ≡ take (length (keep_until remaining kept rms)) rms
      × ((length rms ≤ length (keep_until remaining kept rms))
          ⊎ (remaining
              < kept + datapoints_of (take (suc (length (keep_until remaining kept rms))) rms)))
unfolding keep_until
keep_until-prefix remaining kept [] = (refl, inl (omega arith))
keep_until-prefix remaining kept (rm ∷ rms) =
    ground (arith, keep_until-prefix remaining (kept + count_rm_datapoints rm) rms)

-- The adaptive action keeps a beginning of the batch. When the window holds less than the limit on
-- data points, the beginning fits into the limit together with the window, and a longer one does not.
adaptive_filter_lem :
    (rms : List ResourceMetrics) (w : TenantWindow) (tq : TenantQuota)
    → w.datapoints < tq.max_datapoints
    → adaptive_filter rms w tq ≡ take (length (adaptive_filter rms w tq)) rms
      × w.datapoints + datapoints_of (adaptive_filter rms w tq) ≤ tq.max_datapoints
      × ((length rms ≤ length (adaptive_filter rms w tq))
          ⊎ (tq.max_datapoints
              < w.datapoints + datapoints_of (take (suc (length (adaptive_filter rms w tq))) rms)))
unfolding adaptive_filter
adaptive_filter_lem rms w tq h = ground (
  arith,
  keep_until_bound (tq.max_datapoints - w.datapoints) 0 rms,
  keep_until-prefix (tq.max_datapoints - w.datapoints) 0 rms,
)

-- The limit on data points holds, where 0 is no limit.
abbrev pub IsBounded : ℕ → TenantWindow → Type 0
IsBounded m w = (m ≡ 0) ⊎ (w.datapoints ≤ m)

adaptive_filter_bound :
    (rms : List ResourceMetrics) (w : TenantWindow) (tq : TenantQuota)
    → IsBounded tq.max_datapoints w
    → (tq.max_datapoints ≡ 0)
      ⊎ (w.datapoints + datapoints_of (adaptive_filter rms w tq) ≤ tq.max_datapoints)
unfolding adaptive_filter
adaptive_filter_bound rms w tq h =
    ground (arith, keep_until_bound (tq.max_datapoints - w.datapoints) 0 rms)

filter_tenant_bound :
    (a : QuotaAction) (rms : List ResourceMetrics) (w : TenantWindow) (tq : TenantQuota)
    → stops a ≡ true
    → IsBounded tq.max_datapoints w
    → (tq.max_datapoints ≡ 0)
      ⊎ (w.datapoints + datapoints_of (filter_tenant a tq w rms) ≤ tq.max_datapoints)
unfolding filter_tenant stops
filter_tenant_bound action_drop rms w tq s h = ground arith
filter_tenant_bound action_log rms w tq s h = ground arith
filter_tenant_bound action_adaptive rms w tq s h = adaptive_filter_bound rms w tq h
filter_tenant_bound no_action rms w tq s h = adaptive_filter_bound rms w tq h
filter_tenant_bound (unknown_action x) rms w tq s h = ground arith

module _ (sprint_double : ℕ → String) where
  pub count_lem : (rms : List ResourceMetrics) → (count sprint_double rms).0 ≡ datapoints_of rms
  count_lem rms = (count_datapoints_and_series_lem sprint_double rms).0

  track_kept_bound :
      (m : ℕ) (w : TenantWindow) (stop : Bool) (kept : List ResourceMetrics)
      → IsBounded m w
      → (m ≡ 0) ⊎ (w.datapoints + datapoints_of kept ≤ m)
      → IsBounded m (track_kept sprint_double w stop kept).0
  unfolding track_kept track
  track_kept_bound m w stop kept h k = ground (arith, count_lem kept)

  renew-IsBounded : (m now d : ℕ) (w : TenantWindow) → IsBounded m w → IsBounded m (renew now d w)
  unfolding renew
  renew-IsBounded m now d w h = ground arith

  exceeded_bound :
      (m n : ℕ) (w : TenantWindow) (rms : List ResourceMetrics)
      → exceeded m n w (count sprint_double rms).0 (count sprint_double rms).1 ≡ false
      → (m ≡ 0) ⊎ (w.datapoints + datapoints_of rms ≤ m)
  unfolding exceeded
  exceeded_bound m n w rms h = ground (arith, count_lem rms)

  pub process_tenant_at-IsBounded :
      (now : ℕ) (tq : TenantQuota) (rms : List ResourceMetrics) (w : TenantWindow)
      → stops tq.action ≡ true
      → IsBounded tq.max_datapoints w
      → IsBounded tq.max_datapoints (process_tenant_at sprint_double now tq rms w).0
  unfolding process_tenant_at
  process_tenant_at-IsBounded now tq rms w s h =
      let w' = renew now tq.parsed_window w in
      let h' = renew-IsBounded tq.max_datapoints now tq.parsed_window w h in
      elim (Bool-cases (
        exceeded tq.max_datapoints tq.max_cardinality w' (count sprint_double rms).0
          (count sprint_double rms).1)) [
            | inl e ↦ ground (
              arith,
              e,
              track_kept_bound tq.max_datapoints w' (stops tq.action)
                  (filter_tenant tq.action tq w' rms) h'
                  (filter_tenant_bound tq.action rms w' tq s h'),
            )
            | inr e ↦ ground (
              arith,
              e,
              track_kept_bound tq.max_datapoints w' false rms h'
                  (exceeded_bound tq.max_datapoints tq.max_cardinality w' rms e),
            )
          ]
