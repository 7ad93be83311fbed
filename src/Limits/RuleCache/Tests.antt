-- ===== src/Limits/RuleCache/Tests.antt =====
-- The rule cache at concrete inputs; a rule is a number.
use metrics_governor.Prelude.{ℕ, ◌≡◌, refl, [], ◌∷◌, none, some, arith}
use metrics_governor.Prelude.Eq.{string_eq}
use metrics_governor.Limits.RuleCache.Order.{
  view, find_key, find_id, remove_id, remove, remove_back, back,
}
use metrics_governor.Limits.RuleCache.{RuleCache, get, put, size, evict_full}
use metrics_governor.Limits.RuleCache.Get.{IsValid, get_refines, recall}
use metrics_governor.Limits.RuleCache.Put.{put_refines}

abbrev full : RuleCache ℕ
full = record {
  entries = ("cpu", 1) ∷ ("mem", 0) ∷ [];
  order =
      record { id = 1; key = "cpu"; rule = some 7 }
      ∷ record { id = 0; key = "mem"; rule = none }
      ∷ [];
  next_id = 2;
  max_size = 2;
  hits = 0;
  misses = 2;
  evictions = 0;
}

full-IsValid : IsValid full
unfolding find_key find_id
full-IsValid = record {
  agree = λ k. ground (arith);
  distinct = (refl, (refl, tt));
  sized = refl;
  unique = (refl, refl, (refl, refl, tt));
  fresh = (omega arith, (omega arith, tt));
  positive = omega arith;
  bounded = omega arith;
}

get_promotes : (get (some full) "mem").1 ≡ some none
unfolding get find_id remove_id
get_promotes = refl

put_evicts : size (put (some full) "disk" (some 3)) ≡ 2
unfolding put size evict_full back remove_back
put_evicts = refl

get_refines_example :
    (c' : RuleCache ℕ) × (get (some full) "mem" ≡ (some c', recall "mem" (view full.order)))
    × (view c'.order ≡ ("mem", none) ∷ ("cpu", some 7) ∷ [])
    × (c'.max_size ≡ 2)
    × IsValid c'
unfolding recall remove
get_refines_example = get_refines full "mem" full-IsValid

put_refines_example :
    (c' : RuleCache ℕ) × (put (some full) "disk" (some 3) ≡ some c')
    × (view c'.order ≡ ("disk", some 3) ∷ ("cpu", some 7) ∷ [])
    × (c'.max_size ≡ 2)
    × IsValid c'
unfolding recall
put_refines_example = put_refines full "disk" (some 3) full-IsValid
