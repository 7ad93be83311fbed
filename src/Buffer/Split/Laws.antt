-- ===== src/Buffer/Split/Laws.antt =====
-- What a split keeps, and how small its parts are.
use native.Mathlib.Nat.{pow-suc}
use metrics_governor.Prelude.{
  ℕ, zero, suc, ◌+◌, ◌*◌, ◌/◌, ◌^◌, ◌≤◌, ◌<◌, ◌≡◌, refl, ap, sym, true, ◌||◌, List, [], ◌∷◌, ◌++◌,
  map, append-nil, append_assoc, ◌⊎◌, inl, inr, arith, length, length-append, length-take,
  length-drop, map-take, map-drop, All-imp, take, drop, take-append-drop, All, All-append, leb,
  Bool-cases,
}
use metrics_governor.Buffer.Split.{
  split_with_cached_sizes, split_by_bytes, total, estimate_batch_size, default_max_split_depth,
}

abbrev pub concat {ℓ} : {A : Type ℓ} → List (List A) → List A
concat [] = []
concat (xs ∷ xss) = xs ++ concat xss

concat-append {ℓ} :
    {A : Type ℓ} (xss yss : List (List A)) → concat (xss ++ yss) ≡ concat xss ++ concat yss
concat-append [] yss = refl
concat-append (xs ∷ xss) yss =
    rw (concat-append xss yss) (sym (append_assoc xs (concat xss) (concat yss)))

two_pow_pos : (n : ℕ) → 0 < 2 ^ n
two_pow_pos zero = omega arith
two_pow_pos (suc n) = omega (arith, pow-suc 2 n, two_pow_pos n)

one_share : (n t : ℕ) → n ≤ 1 → 0 < t → n * t < n + t
one_share zero t h p = omega arith
one_share (suc zero) t h p = omega arith
one_share (suc (suc n)) t h p = absurd (omega arith)

module _ {A : Type 0} where
  concat-split :
      (batch : List A) (sizes : List ℕ) (max_bytes left : ℕ)
      → concat (split_with_cached_sizes batch sizes max_bytes left) ≡ batch
  unfolding split_with_cached_sizes
  concat-split batch sizes max_bytes zero = append-nil batch
  concat-split batch sizes max_bytes (suc left) =
      let mid = length batch / 2 in
      ground (
        arith,
        append-nil batch,
        concat-append (split_with_cached_sizes (take mid batch) (take mid sizes) max_bytes left)
            (split_with_cached_sizes (drop mid batch) (drop mid sizes) max_bytes left),
        concat-split (take mid batch) (take mid sizes) max_bytes left,
        concat-split (drop mid batch) (drop mid sizes) max_bytes left,
        take-append-drop mid batch,
      )

  -- A split loses, repeats and reorders nothing: its parts one after the other are the batch.
  pub concat-split_by_bytes :
      (size_vt : A → ℕ) (batch : List A) (max_bytes : ℕ)
      → concat (split_by_bytes size_vt batch max_bytes) ≡ batch
  unfolding split_by_bytes
  concat-split_by_bytes size_vt batch max_bytes = ground (
    arith,
    append-nil batch,
    concat-split batch (map size_vt batch) max_bytes default_max_split_depth,
  )

  length-split :
      (batch : List A) (sizes : List ℕ) (max_bytes left : ℕ)
      → length (split_with_cached_sizes batch sizes max_bytes left) ≤ 2 ^ left
  unfolding split_with_cached_sizes
  length-split batch sizes max_bytes zero = omega arith
  length-split batch sizes max_bytes (suc left) =
      let mid = length batch / 2 in
      ground (
        arith,
        pow-suc 2 left,
        two_pow_pos left,
        length-append (split_with_cached_sizes (take mid batch) (take mid sizes) max_bytes left)
            (split_with_cached_sizes (drop mid batch) (drop mid sizes) max_bytes left),
        length-split (take mid batch) (take mid sizes) max_bytes left,
        length-split (drop mid batch) (drop mid sizes) max_bytes left,
      )

  -- A part fits into the limit, or is no longer than its share of `n` elements in 2^left parts.
  abbrev pub IsSmall : (A → ℕ) → ℕ → ℕ → ℕ → List A → Type 0
  IsSmall size_vt max_bytes left n part =
      (estimate_batch_size size_vt part ≤ max_bytes) ⊎ (length part * 2 ^ left < n + 2 ^ left)

  total-map :
      (size_vt : A → ℕ) (batch : List A)
      → total (map size_vt batch) ≡ estimate_batch_size size_vt batch
  unfolding estimate_batch_size
  total-map size_vt [] = refl
  total-map size_vt (x ∷ batch) = ap (λ s. size_vt x + s) (total-map size_vt batch)

  IsSmall-half :
      (size_vt : A → ℕ) (max_bytes left m n : ℕ) (part : List A)
      → 2 * m ≤ n + 1
      → IsSmall size_vt max_bytes left m part
      → IsSmall size_vt max_bytes (suc left) n part
  IsSmall-half size_vt max_bytes left m n part h (inl fit) = inl fit
  IsSmall-half size_vt max_bytes left m n part h (inr short) =
      inr (rw (pow-suc 2 left) (omega arith))

  leaf-IsSmall :
      (size_vt : A → ℕ) (batch : List A) (max_bytes left : ℕ)
      → (leb (length batch) 1 || leb (total (map size_vt batch)) max_bytes) ≡ true
      → IsSmall size_vt max_bytes left (length batch) batch
  leaf-IsSmall size_vt batch max_bytes left h =
      ground (arith, total-map size_vt batch, two_pow_pos left, one_share (length batch) (2 ^ left))

  split-IsSmall :
      (size_vt : A → ℕ) (batch : List A) (max_bytes left : ℕ)
      → All
          (IsSmall size_vt max_bytes left (length batch))
          (split_with_cached_sizes batch (map size_vt batch) max_bytes left)
  unfolding split_with_cached_sizes
  split-IsSmall size_vt batch max_bytes zero = (inr (omega arith), tt)
  split-IsSmall size_vt batch max_bytes (suc left) =
      elim (Bool-cases (leb (length batch) 1 || leb (total (map size_vt batch)) max_bytes)) [
        | inl stop ↦ rw stop (leaf-IsSmall size_vt batch max_bytes (suc left) stop, tt)
        | inr more ↦ rw more (
            rw (← map-take size_vt mid batch) (
              rw (← map-drop size_vt mid batch) (
                All-append _
                  (split_with_cached_sizes (take mid batch) (map size_vt (take mid batch)) max_bytes
                    left)
                  (split_with_cached_sizes (drop mid batch) (map size_vt (drop mid batch)) max_bytes
                    left)
                  (All-imp _
                    (λ p.
                      IsSmall-half size_vt max_bytes left (length (take mid batch)) (length batch) p
                        (omega (arith, length-take mid batch)))
                    (split-IsSmall size_vt (take mid batch) max_bytes left))
                  (All-imp _
                    (λ p.
                      IsSmall-half size_vt max_bytes left (length (drop mid batch)) (length batch) p
                        (omega (arith, length-drop mid batch)))
                    (split-IsSmall size_vt (drop mid batch) max_bytes left)))))
      ]
    where
      mid : ℕ
      mid = length batch / 2

  split_stops :
      (batch : List A) (sizes : List ℕ) (max_bytes left : ℕ)
      → (leb (length batch) 1 || leb (total sizes) max_bytes) ≡ true
      → split_with_cached_sizes batch sizes max_bytes left ≡ batch ∷ []
  unfolding split_with_cached_sizes
  split_stops batch sizes max_bytes zero h = refl
  split_stops batch sizes max_bytes (suc left) h = rw h

  split_by_bytes-pos :
      (size_vt : A → ℕ) (batch : List A) (max_bytes : ℕ)
      → 0 < max_bytes
      → split_by_bytes size_vt batch max_bytes
        ≡ split_with_cached_sizes batch (map size_vt batch) max_bytes 4
  unfolding split_by_bytes
  split_by_bytes-pos size_vt batch max_bytes h =
      ground (arith, split_stops batch (map size_vt batch) max_bytes 4)

  -- With a positive limit a split makes at most 16 parts, and each part is within the limit or has
  -- fewer than 1 + n / 16 of the batch's n elements. So in a batch of 16 elements or fewer a part
  -- over the limit is a single element.
  pub split_by_bytes_parts :
      (size_vt : A → ℕ) (batch : List A) (max_bytes : ℕ)
      → 0 < max_bytes
      → (length (split_by_bytes size_vt batch max_bytes) ≤ 16)
        × All
            (λ part.
              (estimate_batch_size size_vt part ≤ max_bytes)
              ⊎ (length part * 16 < length batch + 16))
            (split_by_bytes size_vt batch max_bytes)
  split_by_bytes_parts size_vt batch max_bytes h =
      rw (split_by_bytes-pos size_vt batch max_bytes h) (
        length-split batch (map size_vt batch) max_bytes 4,
        split-IsSmall size_vt batch max_bytes 4,
      )
