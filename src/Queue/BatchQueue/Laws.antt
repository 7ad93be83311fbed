-- ===== src/Queue/BatchQueue/Laws.antt =====
-- The counters and limits of the batch queue.
use metrics_governor.Prelude.{
  ℕ, ◌+◌, ◌≤◌, ◌<◌, ◌≡◌, List, [], ◌∷◌, Option, none, some, arith, length, length-append, sum_map,
  sum_map-append,
}
use metrics_governor.Queue.BatchQueue.{
  MemoryBatchQueue, FullBehavior, Outcome, ok, err_closed, err_full, waits, panics,
  new_memory_batch_queue, send, push_batch, pop_batch, block_round, Ready, can_send, timer_fires,
  tick, close, refuse, Call, pushes, rounds, pops, closes, step, run,
}

module _ {A : Type 0} (estimated_bytes : A → ℕ) where
  -- The counters are exact: what is in the channel, and every batch that was accepted.
  pub record IsValid (q : MemoryBatchQueue A) : Type 0 where
    pub counted : q.active_count ≡ length q.ch
    pub measured : q.active_bytes ≡ sum_map estimated_bytes q.ch
    pub positive : 0 < q.max_size
    pub bounded : length q.ch ≤ q.max_size

  send-IsValid :
      (q : MemoryBatchQueue A) (batch : A)
      → IsValid q
      → length q.ch < q.max_size
      → IsValid (send estimated_bytes q batch)
  unfolding send
  send-IsValid q batch v h =
      ground
        (arith, length-append q.ch (batch ∷ []), sum_map-append estimated_bytes q.ch (batch ∷ []))

  push_batch-IsValid :
      (q : MemoryBatchQueue A) (batch : A)
      → IsValid q
      → IsValid (push_batch estimated_bytes q batch).0
  unfolding push_batch refuse
  push_batch-IsValid q batch v =
      ground
        (arith, length-append q.ch (batch ∷ []), sum_map-append estimated_bytes q.ch (batch ∷ []))

  pop_batch-IsValid : (q : MemoryBatchQueue A) → IsValid q → IsValid (pop_batch estimated_bytes q).0
  unfolding pop_batch
  pop_batch-IsValid q v = ground arith

  block_round-IsValid :
      (q : MemoryBatchQueue A) (batch : A) (r : Ready)
      → IsValid q
      → IsValid (block_round estimated_bytes q batch r).0
  unfolding block_round refuse
  block_round-IsValid q batch can_send v =
      ground
        (arith, length-append q.ch (batch ∷ []), sum_map-append estimated_bytes q.ch (batch ∷ []))
  block_round-IsValid q batch timer_fires v = ground arith
  block_round-IsValid q batch tick v = ground arith

  close-IsValid : (q : MemoryBatchQueue A) → IsValid q → IsValid (close q)
  unfolding close
  close-IsValid q v = ground arith

  pub step-IsValid :
      (q : MemoryBatchQueue A) (c : Call A) → IsValid q → IsValid (step estimated_bytes q c).0
  unfolding step
  step-IsValid q (pushes batch) v = push_batch-IsValid q batch v
  step-IsValid q (rounds batch r) v = block_round-IsValid q batch r v
  step-IsValid q pops v = pop_batch-IsValid q v
  step-IsValid q closes v = close-IsValid q v

  run-IsValid :
      (q : MemoryBatchQueue A) (cs : List (Call A))
      → IsValid q
      → IsValid (run estimated_bytes q cs).0
  unfolding run
  run-IsValid q [] v = v
  run-IsValid q (c ∷ cs) v = run-IsValid (step estimated_bytes q c).0 cs (step-IsValid q c v)

  new_memory_batch_queue-IsValid :
      (max_size max_bytes : ℕ) (b : FullBehavior)
      → IsValid (new_memory_batch_queue A max_size max_bytes b)
  unfolding new_memory_batch_queue
  new_memory_batch_queue-IsValid max_size max_bytes b = ground arith

  -- After any sequence of pushes, rounds of blocked pushes, pops and closes on a new queue, in any
  -- order: the active count and the active bytes are the number and the bytes of the batches in the
  -- channel, which holds no more batches than its capacity, and the capacity is at least one.
  run_batch_queue-IsValid :
      (max_size max_bytes : ℕ) (b : FullBehavior) (cs : List (Call A))
      → IsValid (run estimated_bytes (new_memory_batch_queue A max_size max_bytes b) cs).0
  run_batch_queue-IsValid max_size max_bytes b cs =
      run-IsValid (new_memory_batch_queue A max_size max_bytes b) cs
        (new_memory_batch_queue-IsValid max_size max_bytes b)

-- How many pushes and rounds ended the life of a batch outside the queue or put it in: one for an
-- accepted and one for a refused batch.
unfoldable pub decided : List (Option Outcome) → ℕ
decided [] = 0
decided (some ok ∷ os) = 1 + decided os
decided (some err_full ∷ os) = 1 + decided os
decided (some err_closed ∷ os) = decided os
decided (some waits ∷ os) = decided os
decided (some panics ∷ os) = decided os
decided (none ∷ os) = decided os

abbrev pub accounted : {A : Type 0} → MemoryBatchQueue A → ℕ
accounted q = q.total_popped + q.active_count + q.total_dropped

module _ {A : Type 0} (estimated_bytes : A → ℕ) where
  step-accounted :
      (q : MemoryBatchQueue A) (c : Call A)
      → IsValid estimated_bytes q
      → accounted (step estimated_bytes q c).0
        ≡ accounted q + decided ((step estimated_bytes q c).1 ∷ [])
  unfolding step push_batch block_round pop_batch close decided
  step-accounted q (pushes batch) v = ground arith
  step-accounted q (rounds batch can_send) v = ground arith
  step-accounted q (rounds batch timer_fires) v = ground arith
  step-accounted q (rounds batch tick) v = ground arith
  step-accounted q pops v = ground arith
  step-accounted q closes v = ground arith

  decided-cons :
      (o : Option Outcome) (os : List (Option Outcome))
      → decided (o ∷ os) ≡ decided (o ∷ []) + decided os
  unfolding decided
  decided-cons (some ok) os = ground arith
  decided-cons (some err_full) os = ground arith
  decided-cons (some err_closed) os = ground arith
  decided-cons (some waits) os = ground arith
  decided-cons (some panics) os = ground arith
  decided-cons none os = ground arith

  -- No batch is lost without a count, over any sequence of calls from a queue with exact counters:
  -- the batches popped, queued and dropped grow together by one for each push, or round of a blocked
  -- push, that is accepted or answers that the queue is full, and by nothing else.
  pub run-accounted :
      (q : MemoryBatchQueue A) (cs : List (Call A))
      → IsValid estimated_bytes q
      → accounted (run estimated_bytes q cs).0 ≡ accounted q + decided (run estimated_bytes q cs).1
  unfolding run decided
  run-accounted q [] v = ground arith
  run-accounted q (c ∷ cs) v = ground (
    arith,
    step-accounted q c v,
    decided-cons (step estimated_bytes q c).1
        (run estimated_bytes (step estimated_bytes q c).0 cs).1,
    run-accounted (step estimated_bytes q c).0 cs (step-IsValid estimated_bytes q c v),
  )
