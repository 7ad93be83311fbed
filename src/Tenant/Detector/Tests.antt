-- ===== src/Tenant/Detector/Tests.antt =====
-- Detection at concrete messages.
use metrics_governor.Prelude.{[], ◌∷◌, none, some, String, true, ◌≡◌, refl, All}
use metrics_governor.Tenant.Metrics.{int_value, gauge, ResourceMetrics, data_points}
use metrics_governor.Tenant.Detector.{
  Config, mode_label, mode_attribute, default_config, detect_tenant, detect_in, or_default,
  find_label_value, find_label_in_metric, first_found, find_attribute_value, label,
  remove_attribute, has_attribute, has_key, with_attribute, inject_header_tenant,
  detect_and_annotate,
}
use metrics_governor.Tenant.Detector.Laws.{belonging, bucket, detect_and_annotate_lem}
use metrics_governor.Tenant.Detector.Header.{
  inject_header_tenant_stops, detect_tenant-inject_header_tenant,
}

abbrev by_label : Config
unfolding default_config
by_label = record default_config { enabled = true; mode = mode_label; strip_source_label = true }

abbrev by_attribute : Config
unfolding default_config
by_attribute = record default_config { enabled = true; mode = mode_attribute }

abbrev labelled : String → ResourceMetrics
labelled t = record {
  resource = none;
  scope_metrics =
      record {
        metrics =
            record {
              name = "m";
              data_ = gauge (
                  record {
                    attributes =
                        record { key = "tenant"; value = int_value 3 } ∷ label "tenant" t ∷ [];
                    payload = 0;
                  }
                  ∷ []);
            }
            ∷ [];
      }
      ∷ [];
}

abbrev plain : ResourceMetrics
plain = record { resource = none; scope_metrics = [] }

abbrev owned : ResourceMetrics
owned = record { resource = some (label "service.namespace" "x" ∷ []); scope_metrics = [] }

detect_label : detect_tenant by_label "" (labelled "acme") ≡ "acme"
unfolding detect_tenant detect_in or_default find_label_value find_label_in_metric first_found
    find_attribute_value data_points default_config
detect_label = refl

remove_attribute_first :
    remove_attribute (label "a" "1" ∷ label "b" "2" ∷ label "a" "3" ∷ []) "a"
    ≡ label "b" "2" ∷ label "a" "3" ∷ []
unfolding remove_attribute
remove_attribute_first = refl

detect_and_annotate_lem_example :
    bucket "acme" (detect_and_annotate by_label (labelled "acme" ∷ plain ∷ labelled "acme" ∷ []) "")
    ≡ belonging by_label "" "acme" (labelled "acme" ∷ plain ∷ labelled "acme" ∷ [])
detect_and_annotate_lem_example =
    detect_and_annotate_lem by_label "" "acme" (labelled "acme" ∷ plain ∷ labelled "acme" ∷ [])

inject_header_tenant_stops_example :
    inject_header_tenant (plain ∷ owned ∷ plain ∷ []) "service.namespace" "acme"
    ≡ with_attribute "service.namespace" "acme" plain
      ∷ with_attribute "service.namespace" "acme" owned
      ∷ plain
      ∷ []
unfolding has_attribute has_key
inject_header_tenant_stops_example =
    inject_header_tenant_stops "service.namespace" "acme" (plain ∷ []) (plain ∷ []) owned refl
      (refl, tt) refl

detect_tenant-inject_header_tenant_example :
    All
      (λ rm. detect_tenant by_attribute "" rm ≡ "acme")
      (inject_header_tenant (plain ∷ plain ∷ []) "service.namespace" "acme")
unfolding has_attribute has_key default_config
detect_tenant-inject_header_tenant_example =
    detect_tenant-inject_header_tenant by_attribute "" "acme" (plain ∷ plain ∷ []) refl refl
      (refl, (refl, tt))
