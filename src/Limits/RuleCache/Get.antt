-- ===== src/Limits/RuleCache/Get.antt =====
-- The invariant of the rule cache, the bounded list that it implements, most recently used first,
-- and lookups.
use metrics_governor.Prelude.{
  ℕ, ◌+◌, ◌≤◌, ◌<◌, ◌≡◌, refl, List, [], ◌∷◌, Option, none, some, String, length, if◌then◌else◌,
  arith,
}
use metrics_governor.Prelude.Eq.{string_eq}
use metrics_governor.Prelude.Map.{lookup, Distinct}
use metrics_governor.Limits.RuleCache.Order.{
  Element, find_id, remove_id, find_key, Unique, view, remove, Below, find_id_of_key, find_key_lem,
  find_key-front, view-remove_id, length-remove_id, remove_id-Unique, find_id-remove_id_self,
  remove_id-Below, find_id-Below_some,
}
use metrics_governor.Limits.RuleCache.{RuleCache, get}

module _ {R : Type 0} where
  abbrev pub id_of : Option (Element R) → Option ℕ
  id_of none = none
  id_of (some e) = some e.id

  -- The map and the list hold the same elements, no two with one name, and no more than allowed.
  pub record IsValid (c : RuleCache R) : Type 0 where
    pub agree : (k : String) → lookup k c.entries ≡ id_of (find_key k c.order)
    pub distinct : Distinct c.entries
    pub sized : length c.entries ≡ length c.order
    pub unique : Unique c.order
    pub fresh : Below c.next_id c.order
    pub positive : 0 < c.max_size
    pub bounded : length c.order ≤ c.max_size

  -- The abstract cache: what it knows of a name.
  unfoldable pub recall : String → List (String × Option R) → Option (Option R)
  recall k [] = none
  recall k ((j, r) ∷ l) = if string_eq.beq j k then some r else recall k l

  pub recall-view :
      (k : String) (xs : List (Element R))
      → recall k (view xs) ≡ (elim (find_key k xs) [ none ↦ none | some e ↦ some e.rule ])
  unfolding recall find_key
  recall-view k [] = refl
  recall-view k (x ∷ xs) = ground (arith, recall-view k xs)

  abbrev pub touch : String → List (String × Option R) → List (String × Option R)
  touch k l = elim (recall k l) [ none ↦ l | some r ↦ (k, r) ∷ remove k l ]

  pub front-IsValid :
      (c : RuleCache R) (name : String) (e : Element R) (r : Option R) (hits : ℕ)
      → IsValid c
      → find_key name c.order ≡ some e
      → IsValid (record c {
        order = record { id = e.id; key = e.key; rule = r } ∷ remove_id e.id c.order;
        hits = hits;
      })
  unfolding find_key
  front-IsValid c name e r hits v h = record {
    agree = λ k.
        ground
          (arith, v.agree k, absent k, find_key_lem name c.order e h, string_eq.beq_iff name k);
    distinct = v.distinct;
    sized = omega (arith, v.sized, length-remove_id e.id c.order e found);
    unique = (
      find_id-remove_id_self e.id c.order v.unique,
      ground (arith, absent name, find_key_lem name c.order e h, string_eq.beq_iff name name),
      remove_id-Unique e.id c.order v.unique,
    );
    fresh = (
      find_id-Below_some c.next_id e.id c.order e v.fresh found,
      remove_id-Below c.next_id e.id c.order v.fresh,
    );
    positive = v.positive;
    bounded = omega (arith, v.bounded, length-remove_id e.id c.order e found);
  }
    where
      found : find_id e.id c.order ≡ some e
      found = find_id_of_key name c.order e v.unique h

      absent :
          (k : String)
          → find_key k (remove_id e.id c.order)
            ≡ (if string_eq.beq name k then none else find_key k c.order)
      absent k = find_key-front name k c.order e v.unique h

  -- What a lookup does to a cache that satisfies the invariant: it answers what the abstract list
  -- holds for the name, which goes to the front of that list; the invariant and the limit are kept.
  pub get_refines :
      (c : RuleCache R) (name : String)
      → IsValid c
      → (c' : RuleCache R) × (get (some c) name ≡ (some c', recall name (view c.order)))
        × (view c'.order ≡ touch name (view c.order))
        × (c'.max_size ≡ c.max_size)
        × IsValid c'
  unfolding get
  get_refines c name v = go (find_key name c.order) refl
    where
      go :
          (o : Option (Element R))
          → find_key name c.order ≡ o
          → (c' : RuleCache R) × (get (some c) name ≡ (some c', recall name (view c.order)))
            × (view c'.order ≡ touch name (view c.order))
            × (c'.max_size ≡ c.max_size)
            × IsValid c'
      go none h = (
        record c { misses = c.misses + 1 },
        ground (arith, v.agree name, recall-view name c.order),
        ground (arith, recall-view name c.order),
        refl,
        record {
          agree = v.agree;
          distinct = v.distinct;
          sized = v.sized;
          unique = v.unique;
          fresh = v.fresh;
          positive = v.positive;
          bounded = v.bounded;
        },
      )
      go (some e) h = (
        record c { order = e ∷ remove_id e.id c.order; hits = c.hits + 1 },
        ground (
          arith,
          v.agree name,
          recall-view name c.order,
          find_id_of_key name c.order e v.unique h,
        ),
        ground (
          arith,
          recall-view name c.order,
          view-remove_id name c.order e v.unique h,
          find_key_lem name c.order e h,
        ),
        refl,
        front-IsValid c name e e.rule (c.hits + 1) v h,
      )
