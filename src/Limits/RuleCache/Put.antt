-- ===== src/Limits/RuleCache/Put.antt =====
-- Stores into the rule cache, with the eviction of what was used least recently.
use metrics_governor.Prelude.{
  ℕ, zero, suc, ◌-◌, ◌≤◌, ◌<◌, ◌≡◌, refl, ap, List, [], ◌∷◌, Option, none, some, String, length,
  leb, leb→le, arith, take, take-cons, inl, inr, Bool-cases,
}
use metrics_governor.Prelude.Eq.{string_eq}
use metrics_governor.Prelude.Map.{
  lookup, lookup-insert, lookup-delete, insert-Distinct, delete-Distinct, length-delete,
  length-insert_new,
}
use metrics_governor.Limits.RuleCache.Order.{
  Element, remove_id, back, find_key, view, remove, find_id_of_key, find_key_lem, view-remove_id,
  find_key-remove_back, remove_back-Unique, find_key-remove_back-none, length-remove_back,
  back-some, back-find_key, find_id-Below, Below_suc, remove_back-Below, view-remove_back,
}
use metrics_governor.Limits.RuleCache.{RuleCache, put, evict_full, evict_back, add_front}
use metrics_governor.Limits.RuleCache.Get.{IsValid, recall, recall-view, front-IsValid}

module _ {R : Type 0} where
  evict_back-IsValid :
      (c : RuleCache R) (e : Element R)
      → IsValid c
      → back c.order ≡ some e
      → IsValid (evict_back c (some e))
  unfolding evict_back
  evict_back-IsValid c e v h = record {
    agree = λ k. ground (
      arith,
      v.agree k,
      find_key-remove_back k c.order e v.unique h,
      lookup-delete e.key k c.entries,
    );
    distinct = delete-Distinct e.key c.entries v.distinct;
    sized = omega (
      arith,
      v.sized,
      length-delete e.key c.entries e.id v.distinct held,
      length-remove_back c.order,
    );
    unique = remove_back-Unique c.order v.unique;
    fresh = remove_back-Below c.next_id c.order v.fresh;
    positive = v.positive;
    bounded = omega (arith, v.bounded, length-remove_back c.order);
  }
    where
      held : lookup e.key c.entries ≡ some e.id
      held = ground (arith, v.agree e.key, back-find_key c.order e v.unique h)

  -- What the eviction loop leaves: room for one more, and the most recently used names.
  record Room (c : RuleCache R) (d : RuleCache R) : Type 0 where
    valid : IsValid d
    room : length d.order < d.max_size
    kept : view d.order ≡ take (c.max_size - 1) (view c.order)
    same_limit : d.max_size ≡ c.max_size
    absent : (k : String) → find_key k c.order ≡ none → find_key k d.order ≡ none

  evict_full_stops :
      (fuel : ℕ) (c : RuleCache R) → length c.order < c.max_size → evict_full fuel c ≡ c
  unfolding evict_full
  evict_full_stops zero c h = refl
  evict_full_stops (suc fuel) c h = ground arith

  take-view_all : (n : ℕ) (xs : List (Element R)) → length xs ≤ n → view xs ≡ take n (view xs)
  take-view_all zero [] h = refl
  take-view_all zero (x ∷ xs) h = absurd (omega arith)
  take-view_all (suc n) [] h = refl
  take-view_all (suc n) (x ∷ xs) h =
      ap (λ l. (x.key, x.rule) ∷ l) (take-view_all n xs (omega arith))

  evict_back-Room :
      (c : RuleCache R) (e : Element R)
      → IsValid c
      → length c.order ≡ c.max_size
      → back c.order ≡ some e
      → Room c (evict_back c (some e))
  unfolding evict_back
  evict_back-Room c e v full h = record {
    valid = evict_back-IsValid c e v h;
    room = omega (arith, v.positive, length-remove_back c.order);
    kept = view-remove_back (c.max_size - 1) c.order (omega (arith, v.positive));
    same_limit = refl;
    absent = λ k. find_key-remove_back-none k c.order;
  }

  back_of_full : (c : RuleCache R) → 0 < length c.order → (e : Element R) × (back c.order ≡ some e)
  back_of_full c h = go c.order h
    where
      go : (xs : List (Element R)) → 0 < length xs → (e : Element R) × (back xs ≡ some e)
      go [] h = absurd (omega arith)
      go (x ∷ xs) h = back-some x xs

  evict_full_step :
      (fuel : ℕ) (c : RuleCache R) (e : Element R)
      → length c.order ≡ c.max_size
      → back c.order ≡ some e
      → evict_full (suc fuel) c ≡ evict_full fuel (evict_back c (some e))
  unfolding evict_full
  evict_full_step fuel c e n h = ground arith

  evict_full-Room : (fuel : ℕ) (c : RuleCache R) → IsValid c → Room c (evict_full (suc fuel) c)
  evict_full-Room fuel c v = elim (Bool-cases (leb c.max_size (length c.order))) [
    | inl full ↦
        let n : length c.order ≡ c.max_size = omega (arith, v.bounded, leb→le _ _ full) in
        let (e, h) = back_of_full c (omega (arith, v.positive)) in
        let r = evict_back-Room c e v n h in
        rw (evict_full_step fuel c e n h, evict_full_stops fuel (evict_back c (some e)) r.room) r
    | inr room ↦
        let less : length c.order < c.max_size = ground arith in
        rw (evict_full_stops (suc fuel) c less) (record {
          valid = v;
          room = less;
          kept = take-view_all (c.max_size - 1) c.order (omega arith);
          same_limit = refl;
          absent = λ k p. p;
        })
  ]

  -- The abstract cache after a store: a known name goes to the front with its new rule; a new one
  -- goes to the front and only the first `n` names stay.
  abbrev pub store : ℕ → String → Option R → List (String × Option R) → List (String × Option R)
  store n k r l = elim (recall k l) [ none ↦ take n ((k, r) ∷ l) | some _ ↦ (k, r) ∷ remove k l ]

  add_front-IsValid :
      (c : RuleCache R) (name : String) (r : Option R)
      → IsValid c
      → length c.order < c.max_size
      → find_key name c.order ≡ none
      → IsValid (add_front c name r)
  unfolding add_front find_key
  add_front-IsValid c name r v room h = record {
    agree = λ k. ground (arith, v.agree k, lookup-insert name k c.next_id c.entries);
    distinct = insert-Distinct name c.next_id c.entries v.distinct;
    sized = ground (arith, v.sized, v.agree name, length-insert_new name c.next_id c.entries);
    unique = (find_id-Below c.next_id c.order v.fresh, h, v.unique);
    fresh = (omega arith, Below_suc c.next_id c.order v.fresh);
    positive = v.positive;
    bounded = omega arith;
  }

  -- What a store does to a cache that satisfies the invariant: the abstract list gets the name and
  -- its rule at the front, an unknown name pushing out the least recently used one if the cache is
  -- full; the invariant and the limit are kept.
  pub put_refines :
      (c : RuleCache R) (name : String) (r : Option R)
      → IsValid c
      → (c' : RuleCache R) × (put (some c) name r ≡ some c')
        × (view c'.order ≡ store c.max_size name r (view c.order))
        × (c'.max_size ≡ c.max_size)
        × IsValid c'
  unfolding put
  put_refines c name r v = go (find_key name c.order) refl
    where
      go :
          (o : Option (Element R))
          → find_key name c.order ≡ o
          → (c' : RuleCache R) × (put (some c) name r ≡ some c')
            × (view c'.order ≡ store c.max_size name r (view c.order))
            × (c'.max_size ≡ c.max_size)
            × IsValid c'
      go none h =
          let m = evict_full-Room (length c.order) c v in
          let d = evict_full (suc (length c.order)) c in
          (
            add_front d name r,
            ground (arith, v.agree name),
            ground (
              arith,
              recall-view name c.order,
              m.kept,
              take-cons c.max_size (name, r) (view c.order) v.positive,
            ),
            m.same_limit,
            add_front-IsValid d name r m.valid m.room (m.absent name h),
          )
      go (some e) h = (
        record c { order = record { id = e.id; key = e.key; rule = r } ∷ remove_id e.id c.order },
        ground (arith, v.agree name, find_id_of_key name c.order e v.unique h),
        ground (
          arith,
          recall-view name c.order,
          view-remove_id name c.order e v.unique h,
          find_key_lem name c.order e h,
        ),
        refl,
        front-IsValid c name e r c.hits v h,
      )
