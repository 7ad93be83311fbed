-- ===== src/Buffer/MemoryQueue/Laws.antt =====
-- The bounds of the failover queue, and what a push keeps.
use metrics_governor.Prelude.{
  ℕ, zero, suc, ◌+◌, ◌≤◌, ◌<◌, ◌≡◌, refl, ap, ◌∙◌, Bool, true, ◌&&◌, List, [], ◌∷◌, ◌++◌, Option,
  none, some, arith, length, length-append, to_list, sum_map, sum_map-append, leb, ltb,
  if◌then◌else◌,
}
use metrics_governor.Buffer.MemoryQueue.{
  MemoryQueue, evict_oldest, evict_by_count, evict_by_bytes, make_room, push, pop, ok,
  new_memory_queue, run, step,
}

-- The longest suffix that passes a test; the empty one if none does.
unfoldable pub longest_suffix {ℓ} : {A : Type ℓ} → (List A → Bool) → List A → List A
longest_suffix test [] = []
longest_suffix test (x ∷ xs) = if test (x ∷ xs) then x ∷ xs else longest_suffix test xs

longest_suffix-cons {ℓ} :
    {A : Type ℓ} (test : List A → Bool) (x : A) (xs : List A)
    → longest_suffix test (x ∷ xs) ≡ (if test (x ∷ xs) then x ∷ xs else longest_suffix test xs)
unfolding longest_suffix
longest_suffix-cons test x xs = refl

module _ {A : Type 0} (size_vt : A → ℕ) where
  -- The byte counter is exact, and both limits hold.
  pub record IsValid (q : MemoryQueue A) : Type 0 where
    pub counted : q.bytes ≡ sum_map size_vt q.entries
    pub positive : 0 < q.max_size
    pub within_size : length q.entries ≤ q.max_size
    pub within_bytes : q.bytes ≤ q.max_bytes

  -- With a request of size `n` the entries would keep both limits.
  abbrev pub fits : ℕ → ℕ → ℕ → List A → Bool
  fits max_size max_bytes n xs = ltb (length xs) max_size && leb (sum_map size_vt xs + n) max_bytes

  module _ (max_size max_bytes : ℕ) where
    abbrev holding : List A → MemoryQueue A
    holding xs = record {
      entries = xs;
      bytes = sum_map size_vt xs;
      max_size = max_size;
      max_bytes = max_bytes;
    }

    evict_oldest-holding :
        (x : A) (xs : List A) → evict_oldest size_vt (holding (x ∷ xs)) ≡ holding xs
    unfolding evict_oldest
    evict_oldest-holding x xs = ground arith

    evict_by_count_lem :
        (fuel : ℕ) (xs : List A)
        → length xs < fuel
        → 0 < max_size
        → evict_by_count size_vt fuel (holding xs)
          ≡ holding (longest_suffix (λ l. ltb (length l) max_size) xs)
    unfolding evict_by_count longest_suffix
    evict_by_count_lem zero xs h p = absurd (omega arith)
    evict_by_count_lem (suc fuel) [] h p = ground arith
    evict_by_count_lem (suc fuel) (x ∷ xs) h p =
        ground (arith, evict_oldest-holding x xs, evict_by_count_lem fuel xs)

    evict_by_bytes_lem :
        (fuel n : ℕ) (xs : List A)
        → length xs < fuel
        → n ≤ max_bytes
        → evict_by_bytes size_vt fuel n (holding xs)
          ≡ holding (longest_suffix (λ l. leb (sum_map size_vt l + n) max_bytes) xs)
    unfolding evict_by_bytes longest_suffix
    evict_by_bytes_lem zero n xs h p = absurd (omega arith)
    evict_by_bytes_lem (suc fuel) n [] h p = ground arith
    evict_by_bytes_lem (suc fuel) n (x ∷ xs) h p =
        ground (arith, evict_oldest-holding x xs, evict_by_bytes_lem fuel n xs)

    longest_suffix-fits :
        (n : ℕ) (xs : List A)
        → length xs < max_size
        → longest_suffix (λ l. leb (sum_map size_vt l + n) max_bytes) xs
          ≡ longest_suffix (fits max_size max_bytes n) xs
    unfolding longest_suffix
    longest_suffix-fits n [] h = refl
    longest_suffix-fits n (x ∷ xs) h = ground (arith, longest_suffix-fits n xs)

    -- One pass for both limits does what a pass for each does.
    longest_suffix-both :
        (n : ℕ) (xs : List A)
        → longest_suffix
            (λ l. leb (sum_map size_vt l + n) max_bytes)
            (longest_suffix (λ l. ltb (length l) max_size) xs)
          ≡ longest_suffix (fits max_size max_bytes n) xs
    longest_suffix-both n [] = unfold longest_suffix in refl
    longest_suffix-both n (x ∷ xs) = ground (
      arith,
      longest_suffix-cons (λ (l : List A). ltb (length l) max_size) x xs,
      longest_suffix-cons (fits max_size max_bytes n) x xs,
      longest_suffix-fits n (x ∷ xs),
      longest_suffix-both n xs,
    )

    make_room_lem :
        (n : ℕ) (xs : List A)
        → 0 < max_size
        → n ≤ max_bytes
        → make_room size_vt n (holding xs) ≡ holding (longest_suffix (fits max_size max_bytes n) xs)
    unfolding make_room
    make_room_lem n xs p h =
        rw (evict_by_count_lem (suc (length xs)) xs (omega arith) p)
          (evict_by_bytes_lem _ n _ (omega arith) h ∙ ap holding (longest_suffix-both n xs))

  holding-entries :
      (q : MemoryQueue A)
      → q.bytes ≡ sum_map size_vt q.entries
      → q ≡ holding q.max_size q.max_bytes q.entries
  holding-entries q h = ground arith

  make_room-valid :
      (q : MemoryQueue A) (n : ℕ)
      → IsValid q
      → n ≤ q.max_bytes
      → make_room size_vt n q
        ≡ holding q.max_size q.max_bytes (longest_suffix (fits q.max_size q.max_bytes n) q.entries)
  make_room-valid q n v h =
      ap (make_room size_vt n) (holding-entries q v.counted)
      ∙ make_room_lem q.max_size q.max_bytes n q.entries v.positive h

  -- A push of a request within the byte limit onto a queue that satisfies the invariant succeeds. It
  -- keeps the longest suffix of the entries, the newest ones, that leaves room for the request under
  -- both limits, and puts the request behind it.
  pub push-entries :
      (q : MemoryQueue A) (req : A)
      → IsValid q
      → size_vt req ≤ q.max_bytes
      → ((push size_vt q req).1 ≡ ok)
        × ((push size_vt q req).0.entries
            ≡ longest_suffix (fits q.max_size q.max_bytes (size_vt req)) q.entries ++ req ∷ [])
  unfolding push
  push-entries q req v h = ground (arith, make_room-valid q (size_vt req) v h)

  longest_suffix-fits_self :
      (ms mb n : ℕ) (xs : List A)
      → 0 < ms
      → n ≤ mb
      → fits ms mb n (longest_suffix (fits ms mb n) xs) ≡ true
  unfolding longest_suffix
  longest_suffix-fits_self ms mb n [] p h = ground arith
  longest_suffix-fits_self ms mb n (x ∷ xs) p h =
      ground (arith, longest_suffix-fits_self ms mb n xs p h)

  -- Every push, also one that is refused, keeps the byte counter exact and both limits.
  pub push-IsValid : (q : MemoryQueue A) (req : A) → IsValid q → IsValid (push size_vt q req).0
  unfolding push
  push-IsValid q req v =
      let kept = longest_suffix (fits q.max_size q.max_bytes (size_vt req)) q.entries in
      ground (
        arith,
        make_room-valid q (size_vt req) v,
        longest_suffix-fits_self q.max_size q.max_bytes (size_vt req) q.entries v.positive,
        length-append kept (req ∷ []),
        sum_map-append size_vt kept (req ∷ []),
      )

  -- A pop keeps the byte counter exact and both limits; it returns the oldest entry and leaves the
  -- others, and returns nothing exactly when the queue is empty.
  pub pop_lem :
      (q : MemoryQueue A)
      → IsValid q
      → IsValid (pop size_vt q).0
        × (q.entries ≡ to_list (pop size_vt q).1 ++ (pop size_vt q).0.entries)
  unfolding pop
  pop_lem q v = ground arith

run-IsValid :
    {A : Type 0} (size_vt : A → ℕ) (q : MemoryQueue A) (ops : List (Option A))
    → IsValid size_vt q
    → IsValid size_vt (run size_vt q ops)
unfolding run step
run-IsValid size_vt q [] v = v
run-IsValid size_vt q (some req ∷ ops) v =
    run-IsValid size_vt (push size_vt q req).0 ops (push-IsValid size_vt q req v)
run-IsValid size_vt q (none ∷ ops) v =
    run-IsValid size_vt (pop size_vt q).0 ops (pop_lem size_vt q v).0

-- A queue that starts empty and is used by any sequence of pushes and pops keeps both of its limits,
-- with the byte counter equal to the sizes of the requests that it holds. Limits of 0 stand for the
-- defaults.
run_queue-IsValid :
    {A : Type 0} (size_vt : A → ℕ) (max_size max_bytes : ℕ) (ops : List (Option A))
    → IsValid size_vt (run size_vt (new_memory_queue A max_size max_bytes) ops)
unfolding new_memory_queue
run_queue-IsValid size_vt max_size max_bytes ops = run-IsValid size_vt _ ops (ground arith)
