-- ===== src/Sharding/Splitter/Sums.antt =====
-- Sums of a weight over the data points of a batch. A weight is a function of all that stands around a data
-- point and of the point, so equal sums for every weight mean the same points in the same places.
use metrics_governor.Prelude.{
  ℕ, ◌+◌, ◌≡◌, refl, ap, ◌∙◌, true, ◌&&◌, List, [], ◌∷◌, ◌++◌, Option, none, some, String, sum_map,
  sum_map-append, if◌then◌else◌, arith,
}
use metrics_governor.Prelude.Eq.{string_eq}
use metrics_governor.Prelude.Map.{Map, lookup, insert, entry_sum, entry_sum-insert}
use metrics_governor.Tenant.Metrics.{DataPoint}
use metrics_governor.Sharding.Splitter.{
  Resource, Scope, Metric, ScopeMetrics, ResourceMetrics, scopes_match, add_metric, or_new, add_to,
  list_at, append_at, group, add_groups,
}

-- The name and the version of a scope, by which it is found.
abbrev pub scope_id : Option Scope → Option (String × String)
scope_id none = none
scope_id (some s) = some (s.name, s.version)

-- A metric without its data points.
abbrev pub bare : Metric → Metric
bare m = record m { points = [] }

-- From the resource, the scope, the schema, the metric and the data point.
abbrev pub Weight : Type 0
Weight = Option Resource → Option (String × String) → String → Metric → DataPoint → ℕ

module _ (w : Weight) where
  abbrev pub metric_sum : Option Resource → Option (String × String) → String → Metric → ℕ
  metric_sum r s u m = sum_map (w r s u (bare m)) m.points

  abbrev pub scope_sum : Option Resource → ScopeMetrics → ℕ
  scope_sum r sm = sum_map (metric_sum r (scope_id sm.scope) sm.schema_url) sm.metrics

  abbrev pub scopes_sum : Option Resource → List ScopeMetrics → ℕ
  scopes_sum r sms = sum_map (scope_sum r) sms

  abbrev pub rm_sum : ResourceMetrics → ℕ
  rm_sum rm = scopes_sum rm.resource rm.scope_metrics

  abbrev pub rms_sum : List ResourceMetrics → ℕ
  rms_sum rms = sum_map rm_sum rms

scopes_match-scope_id : (a b : Option Scope) → scopes_match a b ≡ true → scope_id a ≡ scope_id b
unfolding scopes_match
scopes_match-scope_id none none h = refl
scopes_match-scope_id none (some b) h = cc
scopes_match-scope_id (some a) none h = cc
scopes_match-scope_id (some a) (some b) h =
    ground (arith, string_eq.beq_iff a.name b.name, string_eq.beq_iff a.version b.version)

-- A scope and a schema that are found to be the same.
same_place :
    (w : Weight) (r : Option Resource) (a b : Option Scope) (u v : String) (m : Metric)
    → (scopes_match a b && string_eq.beq u v) ≡ true
    → metric_sum w r (scope_id a) u m ≡ metric_sum w r (scope_id b) v m
same_place w r a b u v m h =
    let p : scopes_match a b ≡ true = ground arith in
    let q : string_eq.beq u v ≡ true = ground arith in
    let i = string_eq.beq_iff u v in
    let same_schema : u ≡ v = ground (arith, i) in
    ap (λ s. metric_sum w r s u m) (scopes_match-scope_id a b p)
    ∙ ap (λ t. metric_sum w r (scope_id b) t m) same_schema

scopes_sum-add_metric :
    (w : Weight) (r : Option Resource) (scope : Option Scope) (u : String) (m : Metric)
    (sms : List ScopeMetrics)
    → scopes_sum w r (add_metric scope u m sms)
      ≡ scopes_sum w r sms + metric_sum w r (scope_id scope) u m
unfolding add_metric
scopes_sum-add_metric w r scope u m [] = omega arith
scopes_sum-add_metric w r scope u m (sm ∷ sms) = ground (
  arith,
  same_place w r sm.scope scope sm.schema_url u m,
  sum_map-append (metric_sum w r (scope_id sm.scope) sm.schema_url) sm.metrics (m ∷ []),
  scopes_sum-add_metric w r scope u m sms,
)

append_measure :
    {A : Type 0} (f : A → ℕ) (k j : String) (x : A) (m : Map String (List A)) (o : Option (List A))
    → lookup k m ≡ o
    → entry_sum (sum_map f) j (insert k (list_at o ++ x ∷ []) m)
      ≡ entry_sum (sum_map f) j m + (if string_eq.beq k j then f x else 0)
unfolding list_at
append_measure f k j x m none p = ground (arith, p, entry_sum-insert (sum_map f) k j (x ∷ []) m)
append_measure f k j x m (some xs) p =
    ground
      (arith, p, sum_map-append f xs (x ∷ []), entry_sum-insert (sum_map f) k j (xs ++ x ∷ []) m)

-- Every entry is of the resource.
abbrev pub HaveResource : Option Resource → Map String ResourceMetrics → Type 0
HaveResource r [] = Unit
HaveResource r ((k, rm) ∷ m) = (rm.resource ≡ r) × HaveResource r m

-- An append to the entry of a key.
pub entry_sum-append_at :
    {A : Type 0} (f : A → ℕ) (k j : String) (x : A) (m : Map String (List A))
    → entry_sum (sum_map f) j (append_at k x m)
      ≡ entry_sum (sum_map f) j m + (if string_eq.beq k j then f x else 0)
unfolding append_at list_at
entry_sum-append_at f k j x m = append_measure f k j x m (lookup k m) refl

lookup-HaveResource :
    (r : Option Resource) (k : String) (to_rm : Map String ResourceMetrics) (rm : ResourceMetrics)
    → HaveResource r to_rm
    → lookup k to_rm ≡ some rm
    → rm.resource ≡ r
lookup-HaveResource r k [] rm h p = cc
lookup-HaveResource r k ((j, x) ∷ m) rm h p = ground (arith, h.0, lookup-HaveResource r k m rm h.1)

insert-HaveResource :
    (r : Option Resource) (k : String) (to_rm : Map String ResourceMetrics) (rm : ResourceMetrics)
    → HaveResource r to_rm
    → rm.resource ≡ r
    → HaveResource r (insert k rm to_rm)
insert-HaveResource r k [] rm h p = (p, tt)
insert-HaveResource r k ((j, x) ∷ m) rm h p =
    ground (arith, h.0, p, h.1, insert-HaveResource r k m rm h.1 p)

-- The entry of an endpoint after a metric is added.
grown_sum :
    (w : Weight) (r : Option Resource) (scope : Option Scope) (u : String) (m : Metric)
    (rm : ResourceMetrics)
    → rm.resource ≡ r
    → rm_sum w (record rm { scope_metrics = add_metric scope u m rm.scope_metrics })
      ≡ rm_sum w rm + metric_sum w r (scope_id scope) u m
grown_sum w r scope u m rm p =
    scopes_sum-add_metric w rm.resource scope u m rm.scope_metrics
    ∙ ap (λ x. rm_sum w rm + metric_sum w x (scope_id scope) u m) p

module _ (w : Weight) (r : Option Resource) (scope : Option Scope) (u : String) where
  added :
      (m : Metric) (k j : String) (to_rm : Map String ResourceMetrics) (o : Option ResourceMetrics)
      → HaveResource r to_rm
      → lookup k to_rm ≡ o
      → (let rm = or_new r o in
          let to_rm' =
            insert k (record rm { scope_metrics = add_metric scope u m rm.scope_metrics }) to_rm in
          HaveResource r to_rm'
          × (entry_sum (rm_sum w) j to_rm'
              ≡ entry_sum (rm_sum w) j to_rm
                + (if string_eq.beq k j then metric_sum w r (scope_id scope) u m else 0)))
  unfolding or_new
  added m k j to_rm none h p =
      let rm : ResourceMetrics = record {
        resource = r;
        scope_metrics = add_metric scope u m [];
        schema_url = "";
      } in
      let g =
        grown_sum w r scope u m (record { resource = r; scope_metrics = []; schema_url = "" })
          refl in
      (
        insert-HaveResource r k to_rm rm h refl,
        ground (arith, p, g, entry_sum-insert (rm_sum w) k j rm to_rm),
      )
  added m k j to_rm (some x) h p =
      let rm : ResourceMetrics = record x {
        scope_metrics = add_metric scope u m x.scope_metrics;
      } in
      let q = lookup-HaveResource r k to_rm x h p in
      (
        insert-HaveResource r k to_rm rm h q,
        ground (arith, p, grown_sum w r scope u m x q, entry_sum-insert (rm_sum w) k j rm to_rm),
      )

  pub entry_sum-add_groups :
      (m : Metric) (j : String) (groups : Map String (List DataPoint))
      (to_rm : Map String ResourceMetrics)
      → HaveResource r to_rm
      → HaveResource r (add_groups r scope u m groups to_rm)
        × (entry_sum (rm_sum w) j (add_groups r scope u m groups to_rm)
            ≡ entry_sum (rm_sum w) j to_rm
              + entry_sum (sum_map (w r (scope_id scope) u (bare m))) j groups)
  unfolding add_groups add_to
  entry_sum-add_groups m j [] to_rm h = (h, omega arith)
  entry_sum-add_groups m j ((k, dps) ∷ groups) to_rm h =
      let a = added (record m { points = dps }) k j to_rm (lookup k to_rm) h refl in
      let rest =
        entry_sum-add_groups m j groups (add_to r scope u (record m { points = dps }) k to_rm)
          a.0 in
      (rest.0, omega (arith, a.1, rest.1))

pub entry_sum-group :
    (route : DataPoint → String) (g : DataPoint → ℕ) (j : String) (dps : List DataPoint)
    (groups : Map String (List DataPoint))
    → entry_sum (sum_map g) j (group route dps groups)
      ≡ entry_sum (sum_map g) j groups
        + sum_map (λ dp. if string_eq.beq (route dp) j then g dp else 0) dps
unfolding group
entry_sum-group route g j [] groups = omega arith
entry_sum-group route g j (dp ∷ dps) groups = omega (
  arith,
  entry_sum-group route g j dps (append_at (route dp) dp groups),
  entry_sum-append_at g (route dp) j dp groups,
)
