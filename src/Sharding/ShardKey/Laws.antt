-- ===== src/Sharding/ShardKey/Laws.antt =====
-- Which attributes make a shard key.
use Prim.Native.String.{◌++◌ as str_append}
use metrics_governor.Prelude.{
  ◌≡◌, refl, ap, ◌∙◌, Bool, ◌&&◌, not, List, [], ◌∷◌, Option, none, some, String, if◌then◌else◌,
  arith,
}
use metrics_governor.Prelude.Eq.{string_eq}
use metrics_governor.Prelude.Map.{Map, lookup, insert, lookup-insert, Distinct, insert-Distinct}
use metrics_governor.Tenant.Metrics.{KeyValue}
use metrics_governor.Sharding.ShardKey.{
  ShardKeyBuilder, FloatOps, labels_of, build_key, value_of, add_attribute, add_attributes,
  extract_attributes, copy_into, merge_all, merge_attributes,
}

abbrev pub or_else : Option String → Option String → Option String
or_else none o = o
or_else (some v) o = some v

or_else_assoc : (a b c : Option String) → or_else a (or_else b c) ≡ or_else (or_else a b) c
or_else_assoc none b c = refl
or_else_assoc (some v) b c = refl

or_else-none : (o : Option String) → or_else o none ≡ o
or_else-none none = refl
or_else-none (some v) = refl

lookup-copy_into :
    (key : String) (result m : Map String String)
    → Distinct m
    → Distinct result
    → (lookup key (copy_into result m) ≡ or_else (lookup key m) (lookup key result))
      × Distinct (copy_into result m)
unfolding copy_into
lookup-copy_into key result [] d e = (refl, e)
lookup-copy_into key result ((k, v) ∷ m) d e =
    let rest = lookup-copy_into key (insert k v result) m d.1 (insert-Distinct k v result e) in
    (ground (arith, rest.0, d.0, lookup-insert k key v result, string_eq.beq_iff k key), rest.1)

module _ (fl : FloatOps) where
  abbrev usable : String → KeyValue → Bool
  usable key kv =
      string_eq.beq kv.key key
      && not (string_eq.beq key "")
      && not (string_eq.beq (value_of fl kv.value) "")

  -- The last value of the key that is not empty.
  unfoldable pub last_value : String → List KeyValue → Option String
  last_value key [] = none
  last_value key (kv ∷ attrs) =
      let rest = last_value key attrs in
      or_else rest (if usable key kv then some (value_of fl kv.value) else none)

  lookup-add_attribute :
      (key : String) (kv : KeyValue) (m : Map String String)
      → Distinct m
      → (lookup key (add_attribute fl kv m)
          ≡ or_else (if usable key kv then some (value_of fl kv.value) else none) (lookup key m))
        × Distinct (add_attribute fl kv m)
  unfolding add_attribute
  lookup-add_attribute key kv m d =
      let v = value_of fl kv.value in
      ground (
        arith,
        lookup-insert kv.key key v m,
        insert-Distinct kv.key v m d,
        string_eq.beq_iff kv.key key,
        string_eq.beq_iff kv.key "",
        string_eq.beq_iff key "",
      )

  lookup-add_attributes :
      (key : String) (attrs : List KeyValue) (m : Map String String)
      → Distinct m
      → (lookup key (add_attributes fl attrs m) ≡ or_else (last_value key attrs) (lookup key m))
        × Distinct (add_attributes fl attrs m)
  unfolding add_attributes last_value
  lookup-add_attributes key [] m d = (refl, d)
  lookup-add_attributes key (kv ∷ attrs) m d =
      let a = lookup-add_attribute key kv m d in
      let rest = lookup-add_attributes key attrs (add_attribute fl kv m) a.1 in
      (
        rest.0
            ∙ ap (or_else (last_value key attrs)) a.0
            ∙ or_else_assoc (last_value key attrs)
                (if usable key kv then some (value_of fl kv.value) else none) (lookup key m),
        rest.1,
      )

  lookup-extract_attributes :
      (key : String) (attrs : List KeyValue)
      → (lookup key (extract_attributes fl attrs) ≡ last_value key attrs)
        × Distinct (extract_attributes fl attrs)
  unfolding extract_attributes
  lookup-extract_attributes key attrs =
      let a = lookup-add_attributes key attrs [] tt in
      (a.0 ∙ or_else-none (last_value key attrs), a.1)

-- The labels of a key by a function for the attributes.
unfoldable pub labels_by : (String → Option String) → List String → String
labels_by value [] = ""
labels_by value (key ∷ keys) =
    let rest = labels_by value keys in
    elim (value key) [
      | none ↦ rest
      | some v ↦
          if string_eq.beq v ""
          then rest
          else str_append "|" (str_append key (str_append "=" (str_append v rest)))
    ]

labels_of-labels_by :
    (value : String → Option String) (keys : List String) (m : Map String String)
    → ((key : String) → lookup key m ≡ value key)
    → labels_of keys m ≡ labels_by value keys
unfolding labels_of labels_by
labels_of-labels_by value [] m h = refl
labels_of-labels_by value (key ∷ keys) m h =
    ground (arith, h key, labels_of-labels_by value keys m h)

-- The shard key of a data point is the name of the metric and, in the order of the sorted labels, each configured label
-- with the last value that is not empty under that key among the attributes of the data point, or else among those of
-- the resource.
pub build_key-merged :
    (fl : FloatOps) (b : ShardKeyBuilder) (name : String) (resource point : List KeyValue)
    → build_key b name
        (merge_attributes (extract_attributes fl resource ∷ extract_attributes fl point ∷ []))
      ≡ str_append name (
          labels_by
            (λ key. or_else (last_value fl key point) (last_value fl key resource))
            b.sorted_keys)
unfolding build_key merge_attributes merge_all
build_key-merged fl b name resource point =
    let r = extract_attributes fl resource in
    let p = extract_attributes fl point in
    ap (str_append name) (
      labels_of-labels_by (λ key. or_else (last_value fl key point) (last_value fl key resource))
        b.sorted_keys (copy_into (copy_into [] r) p)
        (λ key.
          let x = lookup-extract_attributes fl key resource in
          let y = lookup-extract_attributes fl key point in
          let a = lookup-copy_into key [] r x.1 tt in
          let c = lookup-copy_into key (copy_into [] r) p y.1 a.1 in
          c.0
          ∙ ap (λ o. or_else o (lookup key (copy_into [] r))) y.0
          ∙ ap (or_else (last_value fl key point)) (a.0 ∙ or_else-none (lookup key r) ∙ x.0)))
