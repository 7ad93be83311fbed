-- ===== src/Tenant/Detector.antt =====
-- `Detector` of internal/tenant/tenant.go. Counters are left out. A Go map from tenants to lists is an
-- association list.
pub mod Laws
pub mod Header
mod Tests
use metrics_governor.Prelude.{
  Bool, true, false, not, ◌&&◌, List, [], ◌∷◌, ◌++◌, map, Option, none, some, String, if◌then◌else◌,
}
use metrics_governor.Prelude.Eq.{BEq, string_eq}
use metrics_governor.Prelude.Map.{Map, lookup, insert}
use metrics_governor.Tenant.Metrics.{
  AnyValue, string_value, int_value, double_value, bool_value, other_value, KeyValue, DataPoint,
  Metric, ScopeMetrics, ResourceMetrics, data_points, map_data_points,
}

abbrev pub str_eq : String → String → Bool
str_eq s t = string_eq.beq s t

pub data DetectionMode : Type 0 where
  mode_header mode_label mode_attribute : DetectionMode
  unknown_mode : String → DetectionMode

pub record Config : Type 0 where
  pub enabled : Bool
  pub mode : DetectionMode
  pub header_name : String
  pub label_name : String
  pub attribute_key : String
  pub default_tenant : String
  pub inject_label : Bool
  pub inject_label_name : String
  pub strip_source_label : Bool

unfoldable pub default_config : Config
default_config = record {
  enabled = false;
  mode = mode_header;
  header_name = "X-Scope-OrgID";
  label_name = "tenant";
  attribute_key = "service.namespace";
  default_tenant = "default";
  inject_label = true;
  inject_label_name = "__tenant__";
  strip_source_label = false;
}

pub data ConfigError : Type 0 where
  no_header_name no_label_name no_attribute_key no_default_tenant no_inject_label_name : ConfigError
  unknown : String → ConfigError

mode_error : Config → DetectionMode → Option ConfigError
mode_error c mode_header = if str_eq c.header_name "" then some no_header_name else none
mode_error c mode_label = if str_eq c.label_name "" then some no_label_name else none
mode_error c mode_attribute = if str_eq c.attribute_key "" then some no_attribute_key else none
mode_error c (unknown_mode m) = some (unknown m)

rest_error : Config → Option ConfigError → Option ConfigError
rest_error c (some e) = some e
rest_error c none =
    if str_eq c.default_tenant ""
    then some no_default_tenant
    else if c.inject_label && str_eq c.inject_label_name ""
    then some no_inject_label_name
    else none

-- `none` where the source returns no error.
pub validate : Config → Option ConfigError
unfolding mode_error rest_error
validate c = if not c.enabled then none else rest_error c (mode_error c c.mode)

-- The state of a `Detector` is its configuration. `none` is an error of the validation.
pub new_detector : Config → Option Config
unfolding validate
new_detector c = elim (validate c) [ none ↦ some c | some e ↦ none ]

-- An invalid configuration leaves the detector as it is.
pub reload_config : Config → Config → Config × Option ConfigError
unfolding validate
reload_config detector c = elim (validate c) [ none ↦ (c, none) | some e ↦ (detector, some e) ]

value_of : AnyValue → Option String
value_of (string_value s) = some s
value_of (int_value n) = none
value_of (double_value n) = none
value_of (bool_value b) = none
value_of other_value = none

-- `kv.Key == key`, and the value is a string.
string_at : String → KeyValue → Option String
unfolding value_of
string_at key kv = if str_eq kv.key key then value_of kv.value else none

-- The first string value of the key; the loop goes on at a value of another type.
pub find_attribute_value : List KeyValue → String → String
unfolding string_at value_of
find_attribute_value [] key = ""
find_attribute_value (kv ∷ attrs) key = elim (string_at key kv) [
  | some s ↦ s
  | none ↦ find_attribute_value attrs key
]

pub find_resource_attribute : ResourceMetrics → String → String
find_resource_attribute rm key = elim rm.resource [
  | some attrs ↦ find_attribute_value attrs key
  | none ↦ ""
]

-- The first value of a loop that returns as soon as it is not empty.
pub first_found {ℓ} : {A : Type ℓ} → (A → String) → List A → String
first_found f [] = ""
first_found f (x ∷ xs) = if str_eq (f x) "" then first_found f xs else f x

find_label_in_metric : String → Metric → String
unfolding data_points
find_label_in_metric label_name m =
    first_found (λ dp. find_attribute_value dp.attributes label_name) (data_points m.data_)

pub find_label_value : ResourceMetrics → String → String
find_label_value rm label_name =
    first_found (λ sm. first_found (find_label_in_metric label_name) sm.metrics) rm.scope_metrics

or_default : Config → String → String
or_default c t = if str_eq t "" then c.default_tenant else t

detect_in : DetectionMode → Config → String → ResourceMetrics → String
unfolding or_default
detect_in mode_header c header_tenant rm = or_default c header_tenant
detect_in mode_label c header_tenant rm = or_default c (find_label_value rm c.label_name)
detect_in mode_attribute c header_tenant rm =
    or_default c (find_resource_attribute rm c.attribute_key)
detect_in (unknown_mode m) c header_tenant rm = c.default_tenant

pub detect_tenant : Config → String → ResourceMetrics → String
unfolding detect_in
detect_tenant c header_tenant rm = detect_in c.mode c header_tenant rm

pub append_or_replace : List KeyValue → KeyValue → List KeyValue
append_or_replace [] kv = kv ∷ []
append_or_replace (existing ∷ attrs) kv =
    if str_eq existing.key kv.key then kv ∷ attrs else existing ∷ append_or_replace attrs kv

pub remove_attribute : List KeyValue → String → List KeyValue
remove_attribute [] key = []
remove_attribute (kv ∷ attrs) key =
    if str_eq kv.key key then attrs else kv ∷ remove_attribute attrs key

-- The nested loops of `injectTenantLabel` and `stripLabel` over all data points.
module _ (f : List KeyValue → List KeyValue) where
  abbrev pub on_point : DataPoint → DataPoint
  on_point dp = record dp { attributes = f dp.attributes }

  pub on_metric : Metric → Metric
  unfolding map_data_points
  on_metric m = record m { data_ = map_data_points on_point m.data_ }

  pub on_scope : ScopeMetrics → ScopeMetrics
  on_scope sm = record sm { metrics = map on_metric sm.metrics }

  pub on_attributes : ResourceMetrics → ResourceMetrics
  on_attributes rm = record rm { scope_metrics = map on_scope rm.scope_metrics }

abbrev pub label : String → String → KeyValue
label name tenant = record { key = name; value = string_value tenant }

pub inject_tenant_label : String → String → ResourceMetrics → ResourceMetrics
unfolding on_attributes
inject_tenant_label name tenant rm =
    on_attributes (λ attrs. append_or_replace attrs (label name tenant)) rm

pub strip_label : String → ResourceMetrics → ResourceMetrics
unfolding on_attributes
strip_label name rm = on_attributes (λ attrs. remove_attribute attrs name) rm

is_mode_label : DetectionMode → Bool
is_mode_label mode_header = false
is_mode_label mode_label = true
is_mode_label mode_attribute = false
is_mode_label (unknown_mode m) = false

-- What the loop of `DetectAndAnnotate` does to one element.
pub annotate : Config → String → ResourceMetrics → ResourceMetrics
unfolding inject_tenant_label strip_label is_mode_label
annotate c tenant rm =
    let injected =
      if c.inject_label then inject_tenant_label c.inject_label_name tenant rm else rm in
    if c.strip_source_label && is_mode_label c.mode
    then strip_label c.label_name injected
    else injected

abbrev pub Buckets : Type 0
Buckets = Map String (List ResourceMetrics)

-- `result[tenant] = append(result[tenant], rm)`
pub append_to : String → ResourceMetrics → Buckets → Buckets
append_to tenant rm result =
    insert tenant (elim (lookup tenant result) [ some rms ↦ rms ++ rm ∷ [] | none ↦ rm ∷ [] ])
      result

pub detect_and_annotate_from : Config → String → Buckets → List ResourceMetrics → Buckets
unfolding append_to
detect_and_annotate_from c header_tenant result [] = result
detect_and_annotate_from c header_tenant result (rm ∷ rms) =
    let tenant = detect_tenant c header_tenant rm in
    detect_and_annotate_from c header_tenant (append_to tenant (annotate c tenant rm) result) rms

pub detect_and_annotate : Config → List ResourceMetrics → String → Buckets
detect_and_annotate c rms header_tenant = detect_and_annotate_from c header_tenant [] rms

has_key : String → List KeyValue → Bool
has_key key [] = false
has_key key (kv ∷ attrs) = if str_eq kv.key key then true else has_key key attrs

abbrev pub attributes_of : ResourceMetrics → List KeyValue
attributes_of rm = elim rm.resource [ some attrs ↦ attrs | none ↦ [] ]

-- Whether the resource has the attribute, where the loop of `InjectHeaderTenant` returns.
pub has_attribute : String → ResourceMetrics → Bool
unfolding has_key
has_attribute key rm = has_key key (attributes_of rm)

abbrev pub with_attribute : String → String → ResourceMetrics → ResourceMetrics
with_attribute key tenant rm = record rm {
  resource = some (append_or_replace (attributes_of rm) (label key tenant));
}

inject_each : String → String → List ResourceMetrics → List ResourceMetrics
unfolding has_attribute
inject_each key tenant [] = []
inject_each key tenant (rm ∷ rms) =
    with_attribute key tenant rm
    ∷ (if has_attribute key rm then rms else inject_each key tenant rms)

pub inject_header_tenant : List ResourceMetrics → String → String → List ResourceMetrics
unfolding inject_each
inject_header_tenant rms key tenant = if str_eq tenant "" then rms else inject_each key tenant rms
