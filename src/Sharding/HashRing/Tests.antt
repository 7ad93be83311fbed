-- ===== src/Sharding/HashRing/Tests.antt =====
-- The hash ring at concrete inputs: texts are hashed by a sum of their code points.
use Prim.Native.Char.{code}
use metrics_governor.Prelude.{ℕ, ◌+◌, ◌*◌, ◌%◌, ◌≡◌, refl, [], ◌∷◌, String, ◌⊎◌, some, arith}
use metrics_governor.Prelude.Eq.{nat_eq}
use metrics_governor.Sharding.Text.{sort_strings, insert_string, itoa}
use metrics_governor.Sharding.HashRing.{
  HashRing, update_endpoints, get_endpoint, add_endpoints, add_endpoint, add_node, virtual_hash,
  sort_hashes, insert_hash, position,
}
use metrics_governor.Sharding.HashRing.Order.{IsSuccessor}
use metrics_governor.Sharding.HashRing.Nodes.{owner, is_some}
use metrics_governor.Sharding.HashRing.Laws.{get_endpoint-IsSuccessor, get_endpoint-join}

abbrev weigh : String → ℕ
weigh String.[] = 7
weigh (String.◌∷◌ c s) = (code c + 31 * weigh s) % 1009

abbrev empty_ring : HashRing
empty_ring = record { ring = []; nodes = []; endpoints = []; virtual_nodes = 3 }

goes_to : get_endpoint weigh (update_endpoints weigh empty_ring ("b" ∷ "a" ∷ [])) "cpu" ≡ "a"
unfolding update_endpoints get_endpoint add_endpoints add_endpoint add_node virtual_hash sort_hashes
    insert_hash position sort_strings insert_string itoa
goes_to = refl

get_endpoint-IsSuccessor_example :
    (s : ℕ) × (owner weigh 3 (sort_strings ("b" ∷ "a" ∷ [])) s
      ≡ some (get_endpoint weigh (update_endpoints weigh empty_ring ("b" ∷ "a" ∷ [])) "cpu"))
    × IsSuccessor (weigh "cpu") (λ t. is_some (owner weigh 3 (sort_strings ("b" ∷ "a" ∷ [])) t)) s
get_endpoint-IsSuccessor_example =
    get_endpoint-IsSuccessor weigh empty_ring "b" ("a" ∷ []) "cpu" (omega arith)

get_endpoint-join_example :
    (get_endpoint weigh (update_endpoints weigh empty_ring ("c" ∷ "b" ∷ "a" ∷ [])) "cpu" ≡ "c")
    ⊎ (get_endpoint weigh (update_endpoints weigh empty_ring ("c" ∷ "b" ∷ "a" ∷ [])) "cpu"
        ≡ get_endpoint weigh (update_endpoints weigh empty_ring ("b" ∷ "a" ∷ [])) "cpu")
get_endpoint-join_example = get_endpoint-join weigh empty_ring "c" ("b" ∷ "a" ∷ []) "cpu"
