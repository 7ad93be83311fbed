-- ===== src/Sharding/HashRing/Laws.antt =====
-- Where a key goes, and how little of that changes with the endpoints.
use mathlib.Core.Path.{fun_ext}
use metrics_governor.Prelude.{
  ℕ, ◌<◌, ◌≡◌, refl, sym, ◌∙◌, ap, subst, true, List, [], ◌∷◌, Option, none, some, String, arith,
  ◌⊎◌, inl, inr, Option-cases,
}
use metrics_governor.Prelude.Eq.{nat_eq}
use metrics_governor.Prelude.Map.{lookup}
use metrics_governor.Sharding.Text.{sort_strings}
use metrics_governor.Sharding.HashRing.{
  HashRing, virtual_hash, update_endpoints, get_endpoint, add_endpoints, position,
}
use metrics_governor.Sharding.HashRing.Order.{
  contains, contains-sort_hashes, sort_hashes-Sorted, IsSuccessor, ahead, wrapped,
  position-IsSuccessor, successor_unique, position-contains,
}
use metrics_governor.Sharding.HashRing.Nodes.{
  owner, is_some, lookup-add_endpoints, add_endpoints-Agrees, owner-insert_string, has_node_first,
  is_some-owner,
}

module _ (hash : String → ℕ) (h : HashRing) where
  abbrev owner_of : List String → ℕ → Option String
  owner_of endpoints = owner hash h.virtual_nodes (sort_strings endpoints)

  abbrev ring_of : List String → HashRing
  ring_of endpoints = update_endpoints hash h endpoints

  lookup-ring_of :
      (endpoints : List String) (g : ℕ) → lookup g (ring_of endpoints).nodes ≡ owner_of endpoints g
  unfolding update_endpoints
  lookup-ring_of endpoints g =
      ground (arith, lookup-add_endpoints hash h.virtual_nodes g (sort_strings endpoints) ([], []))

  contains-ring_of :
      (endpoints : List String) (g : ℕ)
      → contains g (ring_of endpoints).ring ≡ is_some (owner_of endpoints g)
  unfolding update_endpoints
  contains-ring_of endpoints g =
      let st = add_endpoints hash h.virtual_nodes (sort_strings endpoints) ([], []) in
      ground (
        arith,
        contains-sort_hashes g st.0,
        add_endpoints-Agrees hash h.virtual_nodes (sort_strings endpoints) ([], [])
            (λ k. unfold contains in refl) g,
        lookup-add_endpoints hash h.virtual_nodes g (sort_strings endpoints) ([], []),
      )

  position-owner :
      (endpoints : List String) (x s : ℕ)
      → position x (ring_of endpoints).ring ≡ some s
      → IsSuccessor x (λ g. is_some (owner_of endpoints g)) s
  unfolding update_endpoints
  position-owner endpoints x s p =
      subst (λ f. IsSuccessor x f s) (fun_ext (contains-ring_of endpoints))
        (position-IsSuccessor x s (ring_of endpoints).ring
          (sort_hashes-Sorted
            (add_endpoints hash h.virtual_nodes (sort_strings endpoints) ([], [])).0)
          p)

  get_endpoint-none :
      (endpoints : List String) (key : String)
      → position (hash key) (ring_of endpoints).ring ≡ none
      → get_endpoint hash (ring_of endpoints) key ≡ ""
  unfolding get_endpoint
  get_endpoint-none endpoints key p = rw (p, get_endpoint)

  get_endpoint-some :
      (endpoints : List String) (key e : String) (s : ℕ)
      → position (hash key) (ring_of endpoints).ring ≡ some s
      → owner_of endpoints s ≡ some e
      → get_endpoint hash (ring_of endpoints) key ≡ e
  unfolding get_endpoint
  get_endpoint-some endpoints key e s p o =
      rw (p, get_endpoint) (rw (lookup-ring_of endpoints s ∙ o, get_endpoint))

  -- The owner of a successor: some endpoint.
  successor-owner :
      (endpoints : List String) (x s : ℕ)
      → IsSuccessor x (λ g. is_some (owner_of endpoints g)) s
      → (e : String) × (owner_of endpoints s ≡ some e)
  successor-owner endpoints x s (ahead m l f) = ground arith
  successor-owner endpoints x s (wrapped m f) = ground arith

  owned_hash :
      (e : String) (rest : List String)
      → 0 < h.virtual_nodes
      → is_some (owner_of (e ∷ rest) (virtual_hash hash e 0)) ≡ true
  unfolding sort_strings
  owned_hash e rest p =
      is_some-owner hash h.virtual_nodes (virtual_hash hash e 0) e (sort_strings rest)
        (has_node_first hash h.virtual_nodes e p)

  -- With at least one endpoint and one virtual node, a key goes to the owner of the successor of the
  -- key's hash among the hashes of all virtual nodes: the least hash that is not below it, or the
  -- least of all. Of several endpoints with that hash the first by name owns it.
  pub get_endpoint-IsSuccessor :
      (e : String) (rest : List String) (key : String)
      → 0 < h.virtual_nodes
      → (s : ℕ) × (owner hash h.virtual_nodes (sort_strings (e ∷ rest)) s
          ≡ some (get_endpoint hash (update_endpoints hash h (e ∷ rest)) key))
        × IsSuccessor
            (hash key)
            (λ t. is_some (owner hash h.virtual_nodes (sort_strings (e ∷ rest)) t))
            s
  get_endpoint-IsSuccessor e rest key p =
      let (s, q) =
        position-contains (hash key) (virtual_hash hash e 0) (ring_of (e ∷ rest)).ring
          (contains-ring_of (e ∷ rest) (virtual_hash hash e 0) ∙ owned_hash e rest p) in
      let c = position-owner (e ∷ rest) (hash key) s q in
      let (x, o) = successor-owner (e ∷ rest) (hash key) s c in
      (s, o ∙ ap some (sym (get_endpoint-some (e ∷ rest) key x s q o)), c)

  owner_of_join :
      (e : String) (endpoints : List String) (g : ℕ)
      → (owner_of (e ∷ endpoints) g ≡ some e) ⊎ (owner_of (e ∷ endpoints) g ≡ owner_of endpoints g)
  unfolding sort_strings
  owner_of_join e endpoints g =
      owner-insert_string hash h.virtual_nodes g e (sort_strings endpoints)

  is_some-join :
      (e : String) (endpoints : List String) (g : ℕ)
      → is_some (owner_of endpoints g) ≡ true
      → is_some (owner_of (e ∷ endpoints) g) ≡ true
  is_some-join e endpoints g m = ground (arith, owner_of_join e endpoints g)

  -- The new ring has a position for the key, and the node there had another owner before.
  join_at :
      (e : String) (endpoints : List String) (key x : String) (s : ℕ)
      → position (hash key) (ring_of (e ∷ endpoints)).ring ≡ some s
      → owner_of (e ∷ endpoints) s ≡ some x
      → owner_of endpoints s ≡ some x
      → get_endpoint hash (ring_of endpoints) key ≡ x
  join_at e endpoints key x s p o' o =
      let m : is_some (owner_of endpoints s) ≡ true = ap is_some o in
      let (r, q) =
        position-contains (hash key) s (ring_of endpoints).ring
          (contains-ring_of endpoints s ∙ m) in
      let same =
        successor_unique (hash key) r s (λ g. is_some (owner_of endpoints g))
          (λ g. is_some (owner_of (e ∷ endpoints) g)) (is_some-join e endpoints)
          (position-owner endpoints (hash key) r q) (position-owner (e ∷ endpoints) (hash key) s p)
          m in
      get_endpoint-some endpoints key x s (q ∙ ap some (sym same)) o

  still_none :
      (e : String) (endpoints : List String) (key : String)
      → position (hash key) (ring_of (e ∷ endpoints)).ring ≡ none
      → get_endpoint hash (ring_of endpoints) key ≡ ""
  still_none e endpoints key n =
      elim (Option-cases (position (hash key) (ring_of endpoints).ring)) [
        | inl m ↦ get_endpoint-none endpoints key m
        | inr (s, p) ↦
            let (x, o) =
              successor-owner endpoints (hash key) s (position-owner endpoints (hash key) s p) in
            let (r, q) =
              position-contains (hash key) s (ring_of (e ∷ endpoints)).ring
                (contains-ring_of (e ∷ endpoints) s ∙ is_some-join e endpoints s (ap is_some o)) in
            cc
      ]

  -- An endpoint that joins takes keys over and moves no key between the others: every key goes to it
  -- or stays where it was. Read the other way round, an endpoint that leaves moves its own keys only.
  pub get_endpoint-join :
      (e : String) (endpoints : List String) (key : String)
      → (get_endpoint hash (update_endpoints hash h (e ∷ endpoints)) key ≡ e)
        ⊎ (get_endpoint hash (update_endpoints hash h (e ∷ endpoints)) key
            ≡ get_endpoint hash (update_endpoints hash h endpoints) key)
  get_endpoint-join e endpoints key =
      elim (Option-cases (position (hash key) (ring_of (e ∷ endpoints)).ring)) [
        | inl n ↦ inr (get_endpoint-none (e ∷ endpoints) key n ∙ sym (still_none e endpoints key n))
        | inr (s, p) ↦
            let (x, o) =
              successor-owner (e ∷ endpoints) (hash key) s
                (position-owner (e ∷ endpoints) (hash key) s p) in
            elim (owner_of_join e endpoints s) [
              | inl mine ↦ inl (get_endpoint-some (e ∷ endpoints) key e s p mine)
              | inr same ↦ inr (
                  get_endpoint-some (e ∷ endpoints) key x s p o
                  ∙ sym (join_at e endpoints key x s p o (sym same ∙ o)))
            ]
      ]
