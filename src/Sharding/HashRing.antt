-- ===== src/Sharding/HashRing.antt =====
-- The consistent hash ring of internal/sharding/hashring.go. `hash` is `maphash.String` with the
-- seed of the process: some function of the text. The map of nodes is an association list, the ring
-- the sorted list of its hashes. Methods run under the lock, one after the other.
pub mod Nodes
pub mod Order
pub mod Laws
mod Tests
use Prim.Native.String.{◌++◌}
use metrics_governor.Prelude.{
  ℕ, zero, suc, ◌+◌, Bool, true, false, List, [], ◌∷◌, Option, none, some, String, length, leb,
  ◌==◌, if◌then◌else◌,
}
use metrics_governor.Prelude.Eq.{nat_eq}
use metrics_governor.Prelude.Map.{Map, lookup, insert}
use metrics_governor.Sharding.Text.{itoa, sort_strings}

pub record HashRing : Type 0 where
  pub ring : List ℕ
  pub nodes : Map ℕ String
  pub endpoints : List String
  pub virtual_nodes : ℕ

abbrev pub default_virtual_nodes : ℕ
default_virtual_nodes = 150

-- A negative number is passed as 0.
pub new_hash_ring : ℕ → HashRing
new_hash_ring virtual_nodes = record {
  ring = [];
  nodes = [];
  endpoints = [];
  virtual_nodes = if virtual_nodes == 0 then default_virtual_nodes else virtual_nodes;
}

unfoldable pub insert_hash : ℕ → List ℕ → List ℕ
insert_hash h [] = h ∷ []
insert_hash h (g ∷ gs) = if leb h g then h ∷ g ∷ gs else g ∷ insert_hash h gs

-- `sort.Slice` by `<`
unfoldable pub sort_hashes : List ℕ → List ℕ
sort_hashes [] = []
sort_hashes (h ∷ hs) = insert_hash h (sort_hashes hs)

-- `sort.Search`: the first element, in ring order, that is not below the hash.
unfoldable pub search : ℕ → List ℕ → Option ℕ
search x [] = none
search x (h ∷ hs) = if leb x h then some h else search x hs

-- Index 0 where the search ran past the end.
unfoldable pub position : ℕ → List ℕ → Option ℕ
unfolding search
position x [] = none
position x (h ∷ hs) = elim (search x (h ∷ hs)) [ none ↦ some h | some g ↦ some g ]

module _ (hash : String → ℕ) where
  unfoldable pub virtual_hash : String → ℕ → ℕ
  virtual_hash endpoint i = hash (endpoint ++ ("#" ++ itoa i))

  -- The ring in the making: the hashes, newest first, and the nodes.
  unfoldable pub add_node : String → ℕ → List ℕ × Map ℕ String → List ℕ × Map ℕ String
  add_node endpoint h (ring, nodes) = elim (lookup h nodes) [
    | none ↦ (h ∷ ring, insert h endpoint nodes)
    | some _ ↦ (ring, nodes)
  ]

  -- `for i := 0; i < h.virtualNodes; i++`, from `i` with `n` rounds left.
  unfoldable pub add_endpoint : String → ℕ → ℕ → List ℕ × Map ℕ String → List ℕ × Map ℕ String
  add_endpoint endpoint i zero st = st
  add_endpoint endpoint i (suc n) st =
      add_endpoint endpoint (i + 1) n (add_node endpoint (virtual_hash endpoint i) st)

  unfoldable pub add_endpoints : ℕ → List String → List ℕ × Map ℕ String → List ℕ × Map ℕ String
  add_endpoints n [] st = st
  add_endpoints n (endpoint ∷ rest) st = add_endpoints n rest (add_endpoint endpoint 0 n st)

  unfoldable pub update_endpoints : HashRing → List String → HashRing
  update_endpoints h endpoints =
      let sorted = sort_strings endpoints in
      let (ring, nodes) = add_endpoints h.virtual_nodes sorted ([], []) in
      record h { ring = sort_hashes ring; nodes = nodes; endpoints = sorted }

  unfoldable pub get_endpoint : HashRing → String → String
  get_endpoint h key = elim (position (hash key) h.ring) [
    | none ↦ ""
    | some g ↦ elim (lookup g h.nodes) [ none ↦ "" | some endpoint ↦ endpoint ]
  ]

abbrev pub get_endpoints : HashRing → List String
get_endpoints h = h.endpoints

abbrev pub size : HashRing → ℕ
size h = length h.endpoints

abbrev pub is_empty : HashRing → Bool
is_empty h = length h.endpoints == 0
