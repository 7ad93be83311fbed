-- ===== src/Tenant/Quotas/Enforcer/Tenants.antt =====
-- The windows of the tenants over a sequence of batches.
use metrics_governor.Prelude.{
  ℕ, ◌≡◌, refl, sym, ap, subst, ◌∙◌, Bool, true, false, inl, inr, List, [], ◌∷◌, Option, none, some,
  String, Bool-cases, arith, if◌then◌else◌,
}
use metrics_governor.Prelude.Eq.{string_eq}
use metrics_governor.Prelude.Map.{Map, lookup, insert, lookup-insert}
use metrics_governor.Tenant.Metrics.{ResourceMetrics}
use metrics_governor.Tenant.Quotas.Config.{TenantQuota}
use metrics_governor.Tenant.Quotas.Enforcer.{
  TenantWindow, QuotaEnforcer, Batch, empty_window, get_or_create_window, get_tenant_quota, stops,
  process_tenant_at, process_tenant, process, run_process,
}
use metrics_governor.Tenant.Quotas.Enforcer.Global.{on_both, process-config}
use metrics_governor.Tenant.Quotas.Enforcer.Adaptive.{IsBounded, process_tenant_at-IsBounded}

-- The window that a tenant has, or an empty one.
abbrev pub window_of : Option TenantWindow → TenantWindow
window_of o = elim o [ some w ↦ w | none ↦ empty_window ]

pub if_elim {ℓ κ} :
    {A : Type ℓ} (P : A → Type κ) (b : Bool) (x y : A) → P x → P y → P (if b then x else y)
if_elim P true x y p q = p
if_elim P false x y p q = q

lookup-insert_same :
    (t : String) (w : TenantWindow) (ts : Map String TenantWindow)
    → lookup t (insert t w ts) ≡ some w
lookup-insert_same t w ts =
    lookup-insert t t w ts
    ∙ ap (λ b. if b then some w else lookup t ts) ((string_eq.beq_iff t t).1 refl)

lookup-insert_other :
    (t j : String) (w : TenantWindow) (ts : Map String TenantWindow)
    → string_eq.beq t j ≡ false
    → lookup j (insert t w ts) ≡ lookup j ts
lookup-insert_other t j w ts n =
    lookup-insert t j w ts ∙ ap (λ b. if b then some w else lookup j ts) n

module _ (sprint_double : ℕ → String) where
  get_or_create_window-IsBounded :
      (m later : ℕ) (tq : TenantQuota) (o : Option TenantWindow)
      → IsBounded m (window_of o)
      → IsBounded m (get_or_create_window later tq o)
  unfolding get_or_create_window
  get_or_create_window-IsBounded m later tq none h = ground arith
  get_or_create_window-IsBounded m later tq (some w) h = h

  process_tenant-other :
      (now later : ℕ) (t j : String) (o : Option TenantQuota) (rms : List ResourceMetrics)
      (ts : Map String TenantWindow)
      → string_eq.beq t j ≡ false
      → lookup j (process_tenant sprint_double now later t o rms ts).0 ≡ lookup j ts
  unfolding process_tenant
  process_tenant-other now later t j none rms ts n = refl
  process_tenant-other now later t j (some tq) rms ts n =
      let r =
        process_tenant_at sprint_double now tq rms (get_or_create_window later tq (lookup t ts)) in
      if_elim (λ (r : Map String TenantWindow × List ResourceMetrics). lookup j r.0 ≡ lookup j ts) _
        (insert t r.0 ts, r.1) (ts, rms) (lookup-insert_other t j r.0 ts n) refl

  process_tenant-IsBounded :
      (now later : ℕ) (t : String) (q : TenantQuota) (rms : List ResourceMetrics)
      (ts : Map String TenantWindow)
      → stops q.action ≡ true
      → IsBounded q.max_datapoints (window_of (lookup t ts))
      → IsBounded q.max_datapoints
          (window_of (lookup t (process_tenant sprint_double now later t (some q) rms ts).0))
  unfolding process_tenant
  process_tenant-IsBounded now later t q rms ts s h =
      let w = get_or_create_window later q (lookup t ts) in
      let r = process_tenant_at sprint_double now q rms w in
      if_elim
        (λ (r : Map String TenantWindow × List ResourceMetrics).
          IsBounded q.max_datapoints (window_of (lookup t r.0)))
        _ (insert t r.0 ts, r.1) (ts, rms)
        (subst (λ o. IsBounded q.max_datapoints (window_of o)) (sym (lookup-insert_same t r.0 ts))
          (process_tenant_at-IsBounded sprint_double now q rms w s
            (get_or_create_window-IsBounded q.max_datapoints later q (lookup t ts) h)))
        h

  -- The batches of a tenant leave the window of every other tenant as it was.
  process-other :
      (b : Batch) (qe : QuotaEnforcer) (j : String)
      → string_eq.beq b.tenant_id j ≡ false
      → lookup j (process sprint_double b.now b.later b.tenant_id b.rms qe).0.tenants
        ≡ lookup j qe.tenants
  unfolding process
  process-other b qe j n =
      on_both (λ (r : QuotaEnforcer × List ResourceMetrics). lookup j r.0.tenants) _ _ _ _
        (process_tenant-other b.now b.later b.tenant_id j (get_tenant_quota qe.config b.tenant_id)
          b.rms qe.tenants n)
        refl

  process-own :
      (b : Batch) (qe : QuotaEnforcer) (q : TenantQuota)
      → get_tenant_quota qe.config b.tenant_id ≡ some q
      → stops q.action ≡ true
      → IsBounded q.max_datapoints (window_of (lookup b.tenant_id qe.tenants))
      → IsBounded q.max_datapoints (
          window_of (
            lookup b.tenant_id
              (process sprint_double b.now b.later b.tenant_id b.rms qe).0.tenants))
  unfolding process
  process-own b qe q c s h =
      if_elim
        (λ (r : QuotaEnforcer × List ResourceMetrics).
          IsBounded q.max_datapoints (window_of (lookup b.tenant_id r.0.tenants)))
        _ _ _
        (subst
          (λ o. IsBounded q.max_datapoints (
            window_of (
              lookup b.tenant_id
                (process_tenant sprint_double b.now b.later b.tenant_id o b.rms qe.tenants).0)))
          (sym c) (process_tenant-IsBounded b.now b.later b.tenant_id q b.rms qe.tenants s h))
        h

  process-IsBounded :
      (b : Batch) (qe : QuotaEnforcer) (t : String) (q : TenantQuota)
      → get_tenant_quota qe.config t ≡ some q
      → stops q.action ≡ true
      → IsBounded q.max_datapoints (window_of (lookup t qe.tenants))
      → IsBounded q.max_datapoints (
          window_of (lookup t (process sprint_double b.now b.later b.tenant_id b.rms qe).0.tenants))
  process-IsBounded b qe t q c s h = elim (Bool-cases (string_eq.beq b.tenant_id t)) [
    | inl e ↦
        subst
          (λ t. IsBounded q.max_datapoints (
            window_of
              (lookup t (process sprint_double b.now b.later b.tenant_id b.rms qe).0.tenants)))
          ((string_eq.beq_iff b.tenant_id t).0 e)
          (process-own b qe q
            (ap (get_tenant_quota qe.config) ((string_eq.beq_iff b.tenant_id t).0 e) ∙ c) s
            (subst (λ t. IsBounded q.max_datapoints (window_of (lookup t qe.tenants)))
              (sym ((string_eq.beq_iff b.tenant_id t).0 e)) h))
    | inr e ↦ subst (λ o. IsBounded q.max_datapoints (window_of o)) (sym (process-other b qe t e)) h
  ]

  -- The data points that a tenant's window counts stay within its limit, where 0 is no limit, over any
  -- sequence of batches of any tenants, under each of the actions drop, adaptive and none.
  pub run_process-IsBounded :
      (bs : List Batch) (qe : QuotaEnforcer) (t : String) (q : TenantQuota)
      → get_tenant_quota qe.config t ≡ some q
      → stops q.action ≡ true
      → IsBounded q.max_datapoints (window_of (lookup t qe.tenants))
      → IsBounded q.max_datapoints (window_of (lookup t (run_process sprint_double qe bs).tenants))
  unfolding run_process
  run_process-IsBounded [] qe t q c s h = h
  run_process-IsBounded (b ∷ bs) qe t q c s h =
      run_process-IsBounded bs (process sprint_double b.now b.later b.tenant_id b.rms qe).0 t q
        (ap (λ c. get_tenant_quota c t) (process-config sprint_double b qe) ∙ c) s
        (process-IsBounded b qe t q c s h)
