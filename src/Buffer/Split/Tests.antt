-- ===== src/Buffer/Split/Tests.antt =====
-- The splitter at concrete inputs: an element is its own size.
use metrics_governor.Prelude.{
  ℕ, ◌*◌, ◌+◌, ◌≤◌, ◌<◌, ◌≡◌, refl, ◌⊎◌, List, [], ◌∷◌, length, All, arith,
}
use metrics_governor.Buffer.Split.{split_by_bytes, split_with_cached_sizes, estimate_batch_size}
use metrics_governor.Buffer.Split.Laws.{concat, concat-split_by_bytes, split_by_bytes_parts}

abbrev itself : ℕ → ℕ
itself n = n

abbrev batch : List ℕ
batch = 4 ∷ 3 ∷ 9 ∷ 1 ∷ 2 ∷ []

splits : split_by_bytes itself batch 8 ≡ (4 ∷ 3 ∷ []) ∷ (9 ∷ []) ∷ (1 ∷ 2 ∷ []) ∷ []
unfolding split_by_bytes split_with_cached_sizes
splits = refl

concat-split_by_bytes_example : concat (split_by_bytes itself batch 8) ≡ batch
concat-split_by_bytes_example = concat-split_by_bytes itself batch 8

split_by_bytes_parts_example :
    (length (split_by_bytes itself batch 8) ≤ 16)
    × All
        (λ part. (estimate_batch_size itself part ≤ 8) ⊎ (length part * 16 < 5 + 16))
        (split_by_bytes itself batch 8)
split_by_bytes_parts_example = split_by_bytes_parts itself batch 8 (omega arith)
