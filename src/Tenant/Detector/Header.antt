-- ===== src/Tenant/Detector/Header.antt =====
-- Which elements of a batch `InjectHeaderTenant` marks with the tenant of the request.
use metrics_governor.Prelude.{
  true, false, List, [], ◌∷◌, ◌++◌, map, String, ◌≡◌, refl, arith, if◌then◌else◌, All,
}
use metrics_governor.Prelude.Eq.{string_eq}
use metrics_governor.Tenant.Metrics.{ResourceMetrics}
use metrics_governor.Tenant.Detector.{
  str_eq, has_attribute, with_attribute, inject_each, inject_header_tenant, find_resource_attribute,
  find_attribute_value, Config, mode_attribute, detect_tenant, detect_in, or_default, attributes_of,
}
use metrics_governor.Tenant.Detector.Laws.{find_attribute_value-append_or_replace}

inject_each-All :
    (key tenant : String) (rms : List ResourceMetrics)
    → All (λ rm. has_attribute key rm ≡ false) rms
    → inject_each key tenant rms ≡ map (with_attribute key tenant) rms
unfolding inject_each
inject_each-All key tenant [] h = refl
inject_each-All key tenant (rm ∷ rms) h = ground (arith, inject_each-All key tenant rms h.1)

-- In a batch where no resource has the attribute, every element is marked.
pub inject_header_tenant-All :
    (key tenant : String) (rms : List ResourceMetrics)
    → str_eq tenant "" ≡ false
    → All (λ rm. has_attribute key rm ≡ false) rms
    → inject_header_tenant rms key tenant ≡ map (with_attribute key tenant) rms
unfolding inject_header_tenant
inject_header_tenant-All key tenant rms n h = ground (arith, inject_each-All key tenant rms h)

inject_each_stops :
    (key tenant : String) (before after : List ResourceMetrics) (rm : ResourceMetrics)
    → All (λ rm. has_attribute key rm ≡ false) before
    → has_attribute key rm ≡ true
    → inject_each key tenant (before ++ rm ∷ after)
      ≡ map (with_attribute key tenant) before ++ with_attribute key tenant rm ∷ after
unfolding inject_each
inject_each_stops key tenant [] after rm h t = ground arith
inject_each_stops key tenant (b ∷ before) after rm h t =
    ground (arith, inject_each_stops key tenant before after rm h.1 t)

-- The first element that already has the attribute is the last one that is marked: everything after it
-- stays as it was, without the tenant of the request.
pub inject_header_tenant_stops :
    (key tenant : String) (before after : List ResourceMetrics) (rm : ResourceMetrics)
    → str_eq tenant "" ≡ false
    → All (λ rm. has_attribute key rm ≡ false) before
    → has_attribute key rm ≡ true
    → inject_header_tenant (before ++ rm ∷ after) key tenant
      ≡ map (with_attribute key tenant) before ++ with_attribute key tenant rm ∷ after
unfolding inject_header_tenant
inject_header_tenant_stops key tenant before after rm n h t =
    ground (arith, inject_each_stops key tenant before after rm h t)

-- A marked element is detected, by its resource attribute, as the tenant.
pub find_resource_attribute-with_attribute :
    (key tenant other : String) (rm : ResourceMetrics)
    → find_resource_attribute (with_attribute key tenant rm) other
      ≡ (if str_eq key other then tenant else find_resource_attribute rm other)
unfolding find_resource_attribute find_attribute_value
find_resource_attribute-with_attribute key tenant other rm =
    ground (arith, find_attribute_value-append_or_replace (attributes_of rm) key tenant other)

detect_tenant-with_attribute :
    (c : Config) (header_tenant tenant : String) (rm : ResourceMetrics)
    → c.mode ≡ mode_attribute
    → str_eq tenant "" ≡ false
    → detect_tenant c header_tenant (with_attribute c.attribute_key tenant rm) ≡ tenant
unfolding detect_tenant detect_in or_default
detect_tenant-with_attribute c header_tenant tenant rm m n = ground (
  arith,
  string_eq.beq_iff c.attribute_key c.attribute_key,
  find_resource_attribute-with_attribute c.attribute_key tenant c.attribute_key rm,
)

-- With detection by the attribute that is injected, every element of a batch where no resource has
-- the attribute is detected as the tenant of the request, when that is not empty.
pub detect_tenant-inject_header_tenant :
    (c : Config) (header_tenant tenant : String) (rms : List ResourceMetrics)
    → c.mode ≡ mode_attribute
    → str_eq tenant "" ≡ false
    → All (λ rm. has_attribute c.attribute_key rm ≡ false) rms
    → All
        (λ rm. detect_tenant c header_tenant rm ≡ tenant)
        (inject_header_tenant rms c.attribute_key tenant)
unfolding inject_header_tenant inject_each
detect_tenant-inject_header_tenant c header_tenant tenant [] m n h = ground arith
detect_tenant-inject_header_tenant c header_tenant tenant (rm ∷ rms) m n h = ground (
  arith,
  detect_tenant-with_attribute c header_tenant tenant rm m n,
  detect_tenant-inject_header_tenant c header_tenant tenant rms m n h.1,
)
