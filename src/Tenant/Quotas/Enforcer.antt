-- ===== src/Tenant/Quotas/Enforcer.antt =====
-- `QuotaEnforcer` of internal/tenant/quotas.go. `now` is the time that `Process` reads, `later` the one
-- that `getOrCreateWindow` reads.
pub mod Series
pub mod Global
pub mod Tenants
pub mod Adaptive
pub mod Kept
mod Tests
use metrics_governor.Prelude.{
  ℕ, ◌+◌, ◌-◌, Bool, true, false, not, ◌&&◌, ◌||◌, List, [], ◌∷◌, ◌++◌, Option, none, some, String,
  ltb, leb, ◌==◌, length, if◌then◌else◌,
}
use metrics_governor.Prelude.Eq.{string_eq}
use metrics_governor.Prelude.Map.{Map, lookup, insert}
use metrics_governor.Tenant.Metrics.{ResourceMetrics}
use metrics_governor.Tenant.Quotas.Config.{
  QuotaAction, action_drop, action_log, action_adaptive, no_action, unknown_action, GlobalQuota,
  TenantQuota, QuotasConfig,
}
use metrics_governor.Tenant.Quotas.Series.{count_datapoints_and_series, count_rm_datapoints}

pub record TenantWindow : Type 0 where
  pub datapoints : ℕ
  pub cardinality : List String
  pub window_end : ℕ

pub record QuotaEnforcer : Type 0 where
  pub config : QuotasConfig
  pub tenants : Map String TenantWindow
  pub global : TenantWindow
  pub reload_count : ℕ
  pub last_reload_utc : ℕ

-- The zero time is 0.
abbrev pub empty_window : TenantWindow
empty_window = record { datapoints = 0; cardinality = []; window_end = 0 }

pub new_quota_enforcer : ℕ → QuotasConfig → QuotaEnforcer
new_quota_enforcer now config = record {
  config = config;
  tenants = [];
  global = empty_window;
  reload_count = 0;
  last_reload_utc = now;
}

pub reload_config : ℕ → QuotasConfig → QuotaEnforcer → QuotaEnforcer
reload_config now config qe = record {
  config = config;
  tenants = [];
  global = empty_window;
  reload_count = qe.reload_count + 1;
  last_reload_utc = now;
}

-- `_, ok := existing[k]`
unfoldable pub contains : String → List String → Bool
contains k [] = false
contains k (j ∷ js) = if string_eq.beq j k then true else contains k js

unfoldable pub count_new_series : List String → List String → ℕ
unfolding contains
count_new_series existing [] = 0
count_new_series existing (k ∷ ks) =
    (if contains k existing then 0 else 1) + count_new_series existing ks

-- `existing[k] = struct{}{}` for each key.
unfoldable pub add_series : List String → List String → List String
unfolding contains
add_series existing [] = existing
add_series existing (k ∷ ks) =
    add_series (if contains k existing then existing else existing ++ k ∷ []) ks

abbrev pub minute : ℕ
minute = 60000000000

-- `if now.After(w.windowEnd)`
pub renew : ℕ → ℕ → TenantWindow → TenantWindow
renew now parsed_window w =
    if ltb w.window_end now
    then record {
      datapoints = 0;
      cardinality = [];
      window_end = now + (if parsed_window == 0 then minute else parsed_window);
    }
    else w

pub exceeded : ℕ → ℕ → TenantWindow → ℕ → List String → Bool
unfolding count_new_series
exceeded max_datapoints max_cardinality w dp_count series_keys =
    (ltb 0 max_datapoints && ltb max_datapoints (w.datapoints + dp_count))
    || (ltb 0 max_cardinality
        && ltb max_cardinality (length w.cardinality + count_new_series w.cardinality series_keys))

pub track : TenantWindow → ℕ → List String → TenantWindow
unfolding add_series
track w dp_count series_keys = record w {
  datapoints = w.datapoints + dp_count;
  cardinality = add_series w.cardinality series_keys;
}

is_adaptive : QuotaAction → Bool
is_adaptive action_drop = false
is_adaptive action_log = false
is_adaptive action_adaptive = true
is_adaptive no_action = false
is_adaptive (unknown_action a) = false

-- The action is drop, or unset.
unfoldable pub drops_global : QuotaAction → Bool
drops_global action_drop = true
drops_global action_log = false
drops_global action_adaptive = false
drops_global no_action = true
drops_global (unknown_action a) = false

low_priority : Option TenantQuota → Bool
low_priority none = false
low_priority (some tq) = tq.priority == 0

-- Whether the global action gives the batch up.
pub refuses_global : QuotaAction → Option TenantQuota → Bool
unfolding drops_global is_adaptive low_priority
refuses_global action tq = drops_global action || (is_adaptive action && low_priority tq)

-- Level 1: the global window afterwards, and whether the batch goes on.
pub process_global_at :
    ℕ → GlobalQuota → Option TenantQuota → ℕ → List String → TenantWindow → TenantWindow × Bool
unfolding renew exceeded track refuses_global
process_global_at now g tq dp_count series_keys w =
    let w' = renew now g.parsed_window w in
    if exceeded g.max_datapoints g.max_cardinality w' dp_count series_keys
      && refuses_global g.action tq
    then (w', false)
    else (track w' dp_count series_keys, true)

pub process_global :
    ℕ
    → Option GlobalQuota
    → Option TenantQuota
    → ℕ
    → List String
    → TenantWindow
    → TenantWindow × Bool
unfolding process_global_at
process_global now none tq dp_count series_keys w = (w, true)
process_global now (some g) tq dp_count series_keys w =
    if ltb 0 g.max_datapoints || ltb 0 g.max_cardinality
    then process_global_at now g tq dp_count series_keys w
    else (w, true)

pub get_tenant_quota : QuotasConfig → String → Option TenantQuota
get_tenant_quota c tenant_id = elim (lookup tenant_id c.tenants) [
  | some tq ↦ some tq
  | none ↦ c.default
]

-- The window of the tenant, or a new one, which the source also stores.
pub get_or_create_window : ℕ → TenantQuota → Option TenantWindow → TenantWindow
get_or_create_window later tq (some w) = w
get_or_create_window later tq none = record {
  datapoints = 0;
  cardinality = [];
  window_end = later + tq.parsed_window;
}

pub keep_until : ℕ → ℕ → List ResourceMetrics → List ResourceMetrics
unfolding count_rm_datapoints
keep_until remaining kept [] = []
keep_until remaining kept (rm ∷ rms) =
    let n = count_rm_datapoints rm in
    let rest = keep_until remaining (kept + n) rms in
    if leb (kept + n) remaining then rm ∷ rest else []

pub adaptive_filter : List ResourceMetrics → TenantWindow → TenantQuota → List ResourceMetrics
unfolding keep_until
adaptive_filter rms w quota =
    if leb quota.max_datapoints w.datapoints
    then []
    else keep_until (quota.max_datapoints - w.datapoints) 0 rms

-- What the action of an exceeded tenant limit leaves of the batch.
pub filter_tenant :
    QuotaAction → TenantQuota → TenantWindow → List ResourceMetrics → List ResourceMetrics
unfolding adaptive_filter
filter_tenant action_drop tq w rms = []
filter_tenant action_log tq w rms = rms
filter_tenant action_adaptive tq w rms = adaptive_filter rms w tq
filter_tenant no_action tq w rms = adaptive_filter rms w tq
filter_tenant (unknown_action a) tq w rms = rms

-- The action is drop, adaptive or unset, after which an empty rest is returned without tracking.
pub stops : QuotaAction → Bool
stops action_drop = true
stops action_log = false
stops action_adaptive = true
stops no_action = true
stops (unknown_action a) = false

pub is_empty : List ResourceMetrics → Bool
is_empty [] = true
is_empty (rm ∷ rms) = false

module _ (sprint_double : ℕ → String) where
  abbrev pub count : List ResourceMetrics → ℕ × List String
  count rms = count_datapoints_and_series sprint_double rms

  -- What goes on of a batch that may exceed the limits of the tenant, and the window afterwards.
  pub track_kept : TenantWindow → Bool → List ResourceMetrics → TenantWindow × List ResourceMetrics
  unfolding track is_empty
  track_kept w stop kept =
      if stop && is_empty kept then (w, []) else (track w (count kept).0 (count kept).1, kept)

  -- Level 2 on the tenant's window.
  pub process_tenant_at :
      ℕ → TenantQuota → List ResourceMetrics → TenantWindow → TenantWindow × List ResourceMetrics
  unfolding renew exceeded filter_tenant stops track_kept
  process_tenant_at now tq rms w =
      let w' = renew now tq.parsed_window w in
      if exceeded tq.max_datapoints tq.max_cardinality w' (count rms).0 (count rms).1
      then track_kept w' (stops tq.action) (filter_tenant tq.action tq w' rms)
      else track_kept w' false rms

  pub process_tenant :
      ℕ
      → ℕ
      → String
      → Option TenantQuota
      → List ResourceMetrics
      → Map String TenantWindow
      → Map String TenantWindow × List ResourceMetrics
  unfolding get_or_create_window process_tenant_at
  process_tenant now later tenant_id none rms tenants = (tenants, rms)
  process_tenant now later tenant_id (some tq) rms tenants =
      let r =
        process_tenant_at now tq rms (get_or_create_window later tq (lookup tenant_id tenants)) in
      if ltb 0 tq.max_datapoints || ltb 0 tq.max_cardinality
      then (insert tenant_id r.0 tenants, r.1)
      else (tenants, rms)

  pub process :
      ℕ → ℕ → String → List ResourceMetrics → QuotaEnforcer → QuotaEnforcer × List ResourceMetrics
  unfolding process_global process_tenant get_tenant_quota
  process now later tenant_id rms qe =
      let tq = get_tenant_quota qe.config tenant_id in
      let g = process_global now qe.config.global tq (count rms).0 (count rms).1 qe.global in
      let r = process_tenant now later tenant_id tq rms qe.tenants in
      if g.1
      then (record qe { global = g.0; tenants = r.0 }, r.1)
      else (record qe { global = g.0 }, [])

-- A batch of a tenant, with the two times that its processing reads.
pub record Batch : Type 0 where
  pub now : ℕ
  pub later : ℕ
  pub tenant_id : String
  pub rms : List ResourceMetrics

-- The enforcer after a sequence of batches.
unfoldable pub run_process : (ℕ → String) → QuotaEnforcer → List Batch → QuotaEnforcer
run_process sprint_double qe [] = qe
run_process sprint_double qe (b ∷ bs) =
    run_process sprint_double (process sprint_double b.now b.later b.tenant_id b.rms qe).0 bs
