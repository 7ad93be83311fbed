-- ===== src/Sharding/HashRing/Nodes.antt =====
-- Who owns a hash: the loops of `UpdateEndpoints` against a direct definition.
use metrics_governor.Prelude.{
  ℕ, zero, suc, ◌+◌, ◌≡◌, ◌<◌, Bool, true, false, ◌||◌, List, [], ◌∷◌, Option, none, some, String,
  ◌==◌, if◌then◌else◌, arith, ◌⊎◌,
}
use metrics_governor.Prelude.Eq.{nat_eq}
use metrics_governor.Prelude.Map.{Map, lookup, lookup-insert}
use metrics_governor.Sharding.Text.{insert_string}
use metrics_governor.Sharding.HashRing.{virtual_hash, add_node, add_endpoint, add_endpoints}
use metrics_governor.Sharding.HashRing.Order.{contains}

abbrev pub or_else {ℓ} : {A : Type ℓ} → Option A → Option A → Option A
or_else none y = y
or_else (some x) y = some x

abbrev pub is_some {ℓ} : {A : Type ℓ} → Option A → Bool
is_some none = false
is_some (some x) = true

module _ (hash : String → ℕ) where
  -- Whether one of `n` virtual nodes of the endpoint, from number `i` on, has the hash.
  pub has_node : String → ℕ → ℕ → ℕ → Bool
  has_node endpoint i zero h = false
  has_node endpoint i (suc n) h = virtual_hash hash endpoint i == h || has_node endpoint (i + 1) n h

  -- The first of the endpoints that has the hash.
  pub owner : ℕ → List String → ℕ → Option String
  owner n [] h = none
  owner n (e ∷ es) h = if has_node e 0 n h then some e else owner n es h

  lookup-add_node :
      (e : String) (g h : ℕ) (st : List ℕ × Map ℕ String)
      → lookup h (add_node hash e g st).1
        ≡ or_else (lookup h st.1) (if g == h then some e else none)
  unfolding add_node
  lookup-add_node e g h (ring, nodes) = ground (arith, lookup-insert g h e nodes)

  lookup-add_endpoint :
      (e : String) (i n h : ℕ) (st : List ℕ × Map ℕ String)
      → lookup h (add_endpoint hash e i n st).1
        ≡ or_else (lookup h st.1) (if has_node e i n h then some e else none)
  unfolding add_endpoint has_node
  lookup-add_endpoint e i zero h st = ground arith
  lookup-add_endpoint e i (suc n) h st = ground (
    arith,
    lookup-add_node e (virtual_hash hash e i) h st,
    lookup-add_endpoint e (i + 1) n h (add_node hash e (virtual_hash hash e i) st),
  )

  pub lookup-add_endpoints :
      (n h : ℕ) (es : List String) (st : List ℕ × Map ℕ String)
      → lookup h (add_endpoints hash n es st).1 ≡ or_else (lookup h st.1) (owner n es h)
  unfolding add_endpoints owner
  lookup-add_endpoints n h [] st = ground arith
  lookup-add_endpoints n h (e ∷ es) st = ground (
    arith,
    lookup-add_endpoint e 0 n h st,
    lookup-add_endpoints n h es (add_endpoint hash e 0 n st),
  )

  -- The ring holds the hashes of the nodes.
  abbrev pub Agrees : List ℕ × Map ℕ String → Type 0
  Agrees st = (h : ℕ) → contains h st.0 ≡ is_some (lookup h st.1)

  add_node-Agrees :
      (e : String) (g : ℕ) (st : List ℕ × Map ℕ String) → Agrees st → Agrees (add_node hash e g st)
  unfolding add_node contains
  add_node-Agrees e g (ring, nodes) a h = ground (arith, a h, a g, lookup-insert g h e nodes)

  add_endpoint-Agrees :
      (e : String) (i n : ℕ) (st : List ℕ × Map ℕ String)
      → Agrees st
      → Agrees (add_endpoint hash e i n st)
  unfolding add_endpoint
  add_endpoint-Agrees e i zero st a = a
  add_endpoint-Agrees e i (suc n) st a =
      add_endpoint-Agrees e (i + 1) n (add_node hash e (virtual_hash hash e i) st)
        (add_node-Agrees e (virtual_hash hash e i) st a)

  pub add_endpoints-Agrees :
      (n : ℕ) (es : List String) (st : List ℕ × Map ℕ String)
      → Agrees st
      → Agrees (add_endpoints hash n es st)
  unfolding add_endpoints
  add_endpoints-Agrees n [] st a = a
  add_endpoints-Agrees n (e ∷ es) st a =
      add_endpoints-Agrees n es (add_endpoint hash e 0 n st) (add_endpoint-Agrees e 0 n st a)

  -- One more endpoint takes hashes over, and changes the owner of no other.
  pub owner-insert_string :
      (n h : ℕ) (e : String) (es : List String)
      → (owner n (insert_string e es) h ≡ some e) ⊎ (owner n (insert_string e es) h ≡ owner n es h)
  unfolding owner insert_string
  owner-insert_string n h e [] = ground arith
  owner-insert_string n h e (x ∷ xs) = ground (arith, owner-insert_string n h e xs)

  pub has_node_first : (n : ℕ) (e : String) → 0 < n → has_node e 0 n (virtual_hash hash e 0) ≡ true
  unfolding has_node
  has_node_first zero e p = absurd (omega arith)
  has_node_first (suc n) e p = ground arith

  pub is_some-owner :
      (n h : ℕ) (e : String) (es : List String)
      → has_node e 0 n h ≡ true
      → is_some (owner n (insert_string e es) h) ≡ true
  unfolding owner insert_string
  is_some-owner n h e [] p = ground arith
  is_some-owner n h e (x ∷ xs) p = ground (arith, is_some-owner n h e xs)
