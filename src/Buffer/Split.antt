-- ===== src/Buffer/Split.antt =====
-- The byte splitter of internal/buffer/splitter.go. A ResourceMetrics is anything with the encoded
-- size that `SizeVT` reports; the sums stay below 2^63. The prometheus observations are left out.
pub mod Laws
mod Tests
use metrics_governor.Prelude.{
  ℕ, zero, suc, ◌+◌, ◌/◌, Bool, true, false, ◌||◌, List, [], ◌∷◌, ◌++◌, map, length, take, drop,
  leb, ◌==◌, if◌then◌else◌,
}

abbrev pub default_max_split_depth : ℕ
default_max_split_depth = 4

abbrev pub total : List ℕ → ℕ
total [] = 0
total (s ∷ sizes) = s + total sizes

module _ {A : Type 0} where
  -- The depth counts up to `default_max_split_depth` in the code; here `left` is what is left of it,
  -- `default_max_split_depth - depth`, so that the recursion is structural.
  pub split_with_cached_sizes : List A → List ℕ → ℕ → ℕ → List (List A)
  split_with_cached_sizes batch sizes max_bytes zero = batch ∷ []
  split_with_cached_sizes batch sizes max_bytes (suc left) =
      let mid = length batch / 2 in
      let parts =
        split_with_cached_sizes (take mid batch) (take mid sizes) max_bytes left
        ++ split_with_cached_sizes (drop mid batch) (drop mid sizes) max_bytes left in
      if leb (length batch) 1 || leb (total sizes) max_bytes then batch ∷ [] else parts

  -- `maxBytes <= 0` is passed as 0.
  pub split_by_bytes : (A → ℕ) → List A → ℕ → List (List A)
  split_by_bytes size_vt batch max_bytes =
      if max_bytes == 0 || leb (length batch) 1
      then batch ∷ []
      else if leb (total (map size_vt batch)) max_bytes
      then batch ∷ []
      else split_with_cached_sizes batch (map size_vt batch) max_bytes default_max_split_depth

  pub estimate_batch_size : (A → ℕ) → List A → ℕ
  estimate_batch_size size_vt [] = 0
  estimate_batch_size size_vt (rm ∷ batch) = size_vt rm + estimate_batch_size size_vt batch
