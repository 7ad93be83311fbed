-- ===== src/Queue/BatchQueue/Limit.antt =====
-- The byte limit of the batch queue under its three behaviours, and pushes that wait while it closes.
use metrics_governor.Prelude.{
  ℕ, ◌≤◌, ◌<◌, ◌≡◌, true, false, [], ◌∷◌, ◌++◌, arith, length, leb, ◌||◌, drop, if◌then◌else◌,
}
use metrics_governor.Queue.BatchQueue.{
  MemoryBatchQueue, drop_oldest, block, ok, waits, panics, push_batch, block_round, can_send, close,
  handle_full, send_is_ready, over_bytes,
}
use metrics_governor.Queue.BatchQueue.Laws.{IsValid}

module _ {A : Type 0} (estimated_bytes : A → ℕ) where
  -- With the behaviour drop_oldest, a push to an open queue whose counters are exact is always
  -- accepted, and its batch is the newest. At most one batch, the oldest, is dropped for it.
  push_oldest_accepts :
      (q : MemoryBatchQueue A) (batch : A)
      → IsValid estimated_bytes q
      → q.closed ≡ false
      → q.full_behavior ≡ drop_oldest
      → (push_batch estimated_bytes q batch).1 ≡ ok
        × (push_batch estimated_bytes q batch).0.ch
          ≡ (if over_bytes estimated_bytes q batch || leb q.max_size (length q.ch)
              then drop 1 q.ch
              else q.ch)
            ++ batch ∷ []
  unfolding push_batch
  push_oldest_accepts q batch v o b = ground (arith, q.ch)

  -- A batch larger than the byte limit breaks the limit under drop_oldest: the push to an open queue
  -- with exact counters is accepted, and the queue then holds more bytes than the limit.
  pub push_oldest_over :
      (q : MemoryBatchQueue A) (batch : A)
      → IsValid estimated_bytes q
      → q.closed ≡ false
      → q.full_behavior ≡ drop_oldest
      → 0 < q.max_bytes
      → q.max_bytes < estimated_bytes batch
      → (push_batch estimated_bytes q batch).1 ≡ ok
        × q.max_bytes < (push_batch estimated_bytes q batch).0.active_bytes
  unfolding push_batch
  push_oldest_over q batch v o b p h = ground arith

  -- A push under the behaviour block that finds the byte limit exceeded, on an open queue with a free
  -- place, waits; its next round may send, and then the queue holds more bytes than the limit.
  pub push_block_over :
      (q : MemoryBatchQueue A) (batch : A)
      → q.closed ≡ false
      → q.full_behavior ≡ block
      → length q.ch < q.max_size
      → over_bytes estimated_bytes q batch ≡ true
      → push_batch estimated_bytes q batch ≡ (q, waits)
        × send_is_ready q ≡ true
        × (block_round estimated_bytes q batch can_send).1 ≡ ok
        × q.max_bytes < (block_round estimated_bytes q batch can_send).0.active_bytes
  unfolding push_batch block_round handle_full
  push_block_over q batch o b r h = ground arith

  -- A push under the behaviour block that waits for a place in a full open queue panics if the queue is
  -- closed meanwhile: after the close its send is ready, and the round that picks it sends on the
  -- closed channel.
  pub push_block_close_panics :
      (q : MemoryBatchQueue A) (batch : A)
      → q.closed ≡ false
      → q.full_behavior ≡ block
      → q.max_size ≤ length q.ch
      → push_batch estimated_bytes q batch ≡ (q, waits)
        × send_is_ready q ≡ false
        × send_is_ready (close q) ≡ true
        × (block_round estimated_bytes (close q) batch can_send).1 ≡ panics
  unfolding push_batch block_round close handle_full
  push_block_close_panics q batch o b h = ground arith
