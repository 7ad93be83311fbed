-- ===== src/Limits/RuleCache.antt =====
-- The LRU cache of rules of internal/limits/rulecache.go. The map holds pointers to the elements of
-- the `container/list` list: an element is known by the number that the allocator gave it, and the
-- list, front first, holds the elements. A rule is of any type; a cached nil rule is `none`.
pub mod Order
pub mod Get
pub mod Put
mod Tests
use metrics_governor.Prelude.{
  ℕ, zero, suc, ◌+◌, Bool, true, false, List, [], ◌∷◌, ◌++◌, Option, none, some, String, length,
  leb, ltb, ◌==◌, if◌then◌else◌, map,
}
use metrics_governor.Prelude.Eq.{string_eq}
use metrics_governor.Prelude.Map.{Map, lookup, insert, delete}
use Order.{Element, find_id, remove_id, back, remove_back}

pub record RuleCache (R : Type 0) : Type 0 where
  pub entries : Map String ℕ
  pub order : List (Element R)
  pub next_id : ℕ
  pub max_size : ℕ
  pub hits : ℕ
  pub misses : ℕ
  pub evictions : ℕ

-- `none` is the nil cache, which a size of 0 or less (passed as 0) asks for.
pub new_rule_cache : (R : Type 0) → ℕ → Option (RuleCache R)
new_rule_cache R max_size =
    if max_size == 0
    then none
    else some (record {
      entries = [];
      order = [];
      next_id = 0;
      max_size = max_size;
      hits = 0;
      misses = 0;
      evictions = 0;
    })

module _ {R : Type 0} where
  abbrev empty_element : Element R
  empty_element = record { id = 0; key = ""; rule = none }

  -- `MoveToFront`: an element that is not in the list stays out.
  move_to_front : ℕ → List (Element R) → List (Element R)
  move_to_front i xs = elim (find_id i xs) [ none ↦ xs | some e ↦ e ∷ remove_id i xs ]

  rule_of : Option (Element R) → Option R
  rule_of none = none
  rule_of (some e) = e.rule

  get_at : RuleCache R → Option ℕ → RuleCache R × Option (Option R)
  unfolding rule_of move_to_front
  get_at c none = (record c { misses = c.misses + 1 }, none)
  get_at c (some i) = (
    record c { order = move_to_front i c.order; hits = c.hits + 1 },
    some (rule_of (find_id i c.order)),
  )

  -- The answer is `none` for a miss and `some rule` for a hit.
  pub get : Option (RuleCache R) → String → Option (RuleCache R) × Option (Option R)
  unfolding get_at
  get none name = (none, none)
  get (some c) name = let (c', found) = get_at c (lookup name c.entries) in (some c', found)

  evict_back : RuleCache R → Option (Element R) → RuleCache R
  evict_back c none = c
  evict_back c (some e) = record c {
    entries = delete e.key c.entries;
    order = remove_back c.order;
    evictions = c.evictions + 1;
  }

  -- `for c.order.Len() >= c.maxSize`, with as many rounds as there are elements, and one more.
  pub evict_full : ℕ → RuleCache R → RuleCache R
  unfolding evict_back
  evict_full zero c = c
  evict_full (suc fuel) c = elim (leb c.max_size (length c.order)) [
    | true ↦ evict_full fuel (evict_back c (back c.order))
    | false ↦ c
  ]

  set_rule : Option R → List (Element R) → List (Element R)
  set_rule r [] = []
  set_rule r (e ∷ xs) = record e { rule = r } ∷ xs

  add_front : RuleCache R → String → Option R → RuleCache R
  add_front c name r = record c {
    entries = insert name c.next_id c.entries;
    order = record { id = c.next_id; key = name; rule = r } ∷ c.order;
    next_id = suc c.next_id;
  }

  put_at : RuleCache R → String → Option R → Option ℕ → RuleCache R
  unfolding set_rule move_to_front add_front
  put_at c name r (some i) = record c { order = set_rule r (move_to_front i c.order) }
  put_at c name r none = add_front (evict_full (suc (length c.order)) c) name r

  pub put : Option (RuleCache R) → String → Option R → Option (RuleCache R)
  unfolding put_at
  put none name r = none
  put (some c) name r = some (put_at c name r (lookup name c.entries))

  pub size : Option (RuleCache R) → ℕ
  size none = 0
  size (some c) = length c.entries

  is_nil : Option R → ℕ
  is_nil none = 1
  is_nil (some r) = 0

  count_negative : List (Element R) → ℕ
  unfolding is_nil
  count_negative [] = 0
  count_negative (e ∷ xs) = is_nil e.rule + count_negative xs

  pub negative_entries : Option (RuleCache R) → ℕ
  unfolding count_negative
  negative_entries none = 0
  negative_entries (some c) = count_negative c.order

  -- The list is emptied by `Init`; the counters stay.
  pub clear_cache : Option (RuleCache R) → Option (RuleCache R)
  clear_cache none = none
  clear_cache (some c) = some (record c { entries = []; order = [] })
