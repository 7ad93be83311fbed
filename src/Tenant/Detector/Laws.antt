-- ===== src/Tenant/Detector/Laws.antt =====
-- What detection gives, and how it splits a batch by tenants.
use metrics_governor.Prelude.{
  Bool, true, false, List, [], ◌∷◌, ◌++◌, append_assoc, append-nil, Option, none, some, String, ◌≡◌,
  ◌∙◌, sym, ap, refl, arith, if◌then◌else◌,
}
use metrics_governor.Prelude.Eq.{string_eq}
use metrics_governor.Prelude.Map.{lookup, lookup-insert}
use metrics_governor.Tenant.Metrics.{KeyValue, ResourceMetrics}
use metrics_governor.Tenant.Detector.{
  str_eq, Config, validate, mode_error, rest_error, find_attribute_value, or_default, detect_in,
  detect_tenant, append_or_replace, label, annotate, Buckets, append_to, detect_and_annotate_from,
  detect_and_annotate,
}

-- A configuration that is enabled and passes validation never gives the empty tenant.
detect_tenant_nonempty :
    (c : Config) (header_tenant : String) (rm : ResourceMetrics)
    → c.enabled ≡ true
    → validate c ≡ none
    → str_eq (detect_tenant c header_tenant rm) "" ≡ false
unfolding detect_tenant detect_in or_default validate rest_error mode_error
detect_tenant_nonempty c header_tenant rm e v = ground arith

-- The elements of a tenant, annotated and in the order of the batch.
unfoldable pub belonging : Config → String → String → List ResourceMetrics → List ResourceMetrics
belonging c header_tenant t [] = []
belonging c header_tenant t (rm ∷ rms) =
    if str_eq (detect_tenant c header_tenant rm) t
    then annotate c t rm ∷ belonging c header_tenant t rms
    else belonging c header_tenant t rms

abbrev pub bucket : String → Buckets → List ResourceMetrics
bucket t result = elim (lookup t result) [ some rms ↦ rms | none ↦ [] ]

abbrev or_nil : Option (List ResourceMetrics) → List ResourceMetrics
or_nil o = elim o [ some rms ↦ rms | none ↦ [] ]

or_nil-appended :
    (b : Bool) (rm : ResourceMetrics) (o p : Option (List ResourceMetrics))
    → (b ≡ true → o ≡ p)
    → or_nil (if b then some (elim o [ some rms ↦ rms ++ rm ∷ [] | none ↦ rm ∷ [] ]) else p)
      ≡ or_nil p ++ (if b then rm ∷ [] else [])
or_nil-appended true rm none p h = ap (λ q. or_nil q ++ rm ∷ []) (h refl)
or_nil-appended true rm (some rms) p h = ap (λ q. or_nil q ++ rm ∷ []) (h refl)
or_nil-appended false rm o p h = sym (append-nil (or_nil p))

bucket-append_to :
    (t tenant : String) (rm : ResourceMetrics) (result : Buckets)
    → bucket t (append_to tenant rm result)
      ≡ bucket t result ++ (if str_eq tenant t then rm ∷ [] else [])
unfolding append_to
bucket-append_to t tenant rm result =
    ap or_nil (
      lookup-insert tenant t
        (elim (lookup tenant result) [ some rms ↦ rms ++ rm ∷ [] | none ↦ rm ∷ [] ]) result)
    ∙ or_nil-appended (str_eq tenant t) rm (lookup tenant result) (lookup t result)
        (λ h. ap (λ s. lookup s result) ((string_eq.beq_iff tenant t).0 h))

detect_and_annotate_from_lem :
    (c : Config) (header_tenant t : String) (result : Buckets) (rms : List ResourceMetrics)
    → bucket t (detect_and_annotate_from c header_tenant result rms)
      ≡ bucket t result ++ belonging c header_tenant t rms
unfolding detect_and_annotate_from belonging
detect_and_annotate_from_lem c header_tenant t result [] = sym (append-nil (bucket t result))
detect_and_annotate_from_lem c header_tenant t result (rm ∷ rms) =
    let tenant = detect_tenant c header_tenant rm in
    ground (
      arith,
      string_eq.beq_iff tenant t,
      bucket-append_to t tenant (annotate c tenant rm) result,
      append_assoc (bucket t result) (annotate c t rm ∷ []) (belonging c header_tenant t rms),
      append-nil (bucket t result),
      detect_and_annotate_from_lem c header_tenant t
          (append_to tenant (annotate c tenant rm) result) rms,
    )

-- The bucket of each tenant holds exactly the elements of the batch that are detected as its own,
-- annotated with it, in the order of the batch.
pub detect_and_annotate_lem :
    (c : Config) (header_tenant t : String) (rms : List ResourceMetrics)
    → bucket t (detect_and_annotate c rms header_tenant) ≡ belonging c header_tenant t rms
unfolding detect_and_annotate
detect_and_annotate_lem c header_tenant t rms =
    detect_and_annotate_from_lem c header_tenant t [] rms

-- After a label is injected its value is found, every other key keeps its value, and a second
-- injection overwrites the first.
pub find_attribute_value-append_or_replace :
    (attrs : List KeyValue) (name tenant other : String)
    → find_attribute_value (append_or_replace attrs (label name tenant)) other
      ≡ (if str_eq name other then tenant else find_attribute_value attrs other)
unfolding find_attribute_value append_or_replace
find_attribute_value-append_or_replace [] name tenant other =
    ground (arith, string_eq.beq_iff name other)
find_attribute_value-append_or_replace (kv ∷ attrs) name tenant other = ground (
  arith,
  string_eq.beq_iff name other,
  string_eq.beq_iff kv.key name,
  string_eq.beq_iff kv.key other,
  find_attribute_value-append_or_replace attrs name tenant other,
)
