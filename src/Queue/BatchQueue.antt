-- ===== src/Queue/BatchQueue.antt =====
-- The in-memory batch queue of internal/queue/batchqueue.go. A batch is any value with the estimated
-- number of bytes that was computed for it. The buffered Go channel is the list of its batches,
-- oldest first, with its capacity. Counters stay below 2^63. The methods of this file run one after the
-- other, and the rounds of a blocked push are operations of their own (`block_round`). A push is made of
-- what it does under the lock (`push_locked`) and of the counters that it updates afterwards (`finish`);
-- BatchQueue/Race interleaves the two.
pub mod Laws
pub mod Limit
pub mod Race
mod Tests
use metrics_governor.Prelude.{
  ℕ, zero, suc, ◌+◌, ◌-◌, Bool, true, false, ◌&&◌, ◌||◌, List, [], ◌∷◌, ◌++◌, Option, none, some,
  length, leb, ltb, ◌==◌, if◌then◌else◌,
}

-- `other_behavior` is every string but the three that the source names and the empty one.
pub data FullBehavior : Type 0 where
  drop_oldest drop_newest block other_behavior : FullBehavior

pub record MemoryBatchQueue (A : Type 0) : Type 0 where
  pub ch : List A
  pub max_size : ℕ
  pub max_bytes : ℕ
  pub full_behavior : FullBehavior
  pub active_count : ℕ
  pub active_bytes : ℕ
  pub total_pushed : ℕ
  pub total_popped : ℕ
  pub total_dropped : ℕ
  pub total_bytes : ℕ
  pub closed : Bool

-- A size of 0 or less is passed as 0; the empty behaviour is passed as the default.
pub new_memory_batch_queue : (A : Type 0) → ℕ → ℕ → FullBehavior → MemoryBatchQueue A
new_memory_batch_queue A max_size max_bytes full_behavior = record {
  ch = [];
  max_size = if max_size == 0 then 1024 else max_size;
  max_bytes = max_bytes;
  full_behavior = full_behavior;
  active_count = 0;
  active_bytes = 0;
  total_pushed = 0;
  total_popped = 0;
  total_dropped = 0;
  total_bytes = 0;
  closed = false;
}

-- How a call ends. `waits` is a push that has entered its wait loop; `panics` is a send on the closed
-- channel.
pub data Outcome : Type 0 where
  ok err_closed err_full waits panics : Outcome

abbrev pub has_room : {A : Type 0} → MemoryBatchQueue A → Bool
has_room q = ltb (length q.ch) q.max_size

-- `q.totalDropped.Add(1)`
pub refuse : {A : Type 0} → MemoryBatchQueue A → MemoryBatchQueue A
refuse q = record q { total_dropped = q.total_dropped + 1 }

module _ {A : Type 0} (estimated_bytes : A → ℕ) where
  -- `q.ch <- batch`, where the channel has room.
  pub enqueue : MemoryBatchQueue A → A → MemoryBatchQueue A
  enqueue q batch = record q { ch = q.ch ++ batch ∷ [] }

  -- The counters that follow a send.
  pub count_push : MemoryBatchQueue A → A → MemoryBatchQueue A
  count_push q batch = record q {
    active_count = q.active_count + 1;
    active_bytes = q.active_bytes + estimated_bytes batch;
    total_pushed = q.total_pushed + 1;
    total_bytes = q.total_bytes + estimated_bytes batch;
  }

  pub send : MemoryBatchQueue A → A → MemoryBatchQueue A
  unfolding enqueue count_push
  send q batch = count_push (enqueue q batch) batch

  drop_front : MemoryBatchQueue A → List A → MemoryBatchQueue A
  drop_front q [] = q
  drop_front q (dropped ∷ rest) = record q {
    ch = rest;
    active_count = q.active_count - 1;
    active_bytes = q.active_bytes - estimated_bytes dropped;
    total_dropped = q.total_dropped + 1;
  }

  push_again : MemoryBatchQueue A → A → MemoryBatchQueue A × Outcome
  unfolding enqueue
  push_again q batch = if has_room q then (enqueue q batch, ok) else (q, err_full)

  -- `handleFullLocked` until it unlocks.
  pub handle_full : FullBehavior → MemoryBatchQueue A → A → MemoryBatchQueue A × Outcome
  unfolding drop_front push_again
  handle_full drop_oldest q batch = push_again (drop_front q q.ch) batch
  handle_full drop_newest q batch = (q, err_full)
  handle_full block q batch = (q, waits)
  handle_full other_behavior q batch = (q, err_full)

  abbrev pub over_bytes : MemoryBatchQueue A → A → Bool
  over_bytes q batch = ltb 0 q.max_bytes && ltb q.max_bytes (q.active_bytes + estimated_bytes batch)

  -- `PushBatch` while it holds the lock, and how it ends or goes on.
  pub push_locked : MemoryBatchQueue A → A → MemoryBatchQueue A × Outcome
  unfolding enqueue handle_full
  push_locked q batch =
      if q.closed
      then (q, err_closed)
      else if over_bytes q batch
      then handle_full q.full_behavior q batch
      else if has_room q
      then (enqueue q batch, ok)
      else handle_full q.full_behavior q batch

  -- The counters that a push updates once it has unlocked.
  pub finish : Outcome → MemoryBatchQueue A → A → MemoryBatchQueue A
  unfolding refuse count_push
  finish ok q batch = count_push q batch
  finish err_full q batch = refuse q
  finish _ q batch = q

  -- A push that no other call interrupts.
  pub push_batch : MemoryBatchQueue A → A → MemoryBatchQueue A × Outcome
  unfolding push_locked finish
  push_batch q batch = let r = push_locked q batch in (finish r.1 r.0 batch, r.1)

  take_front : MemoryBatchQueue A → List A → MemoryBatchQueue A × Option A × Outcome
  take_front q [] = (q, none, if q.closed then err_closed else ok)
  take_front q (batch ∷ rest) = (
    record q {
      ch = rest;
      active_count = q.active_count - 1;
      active_bytes = q.active_bytes - estimated_bytes batch;
      total_popped = q.total_popped + 1;
    },
    some batch,
    ok,
  )

  pub pop_batch : MemoryBatchQueue A → MemoryBatchQueue A × Option A × Outcome
  unfolding take_front
  pop_batch q = take_front q q.ch

-- The cases of the `select` in the wait loop of a blocked push.
pub data Ready : Type 0 where
  can_send timer_fires tick : Ready

module _ {A : Type 0} (estimated_bytes : A → ℕ) where
  -- One round of the wait loop, at the case that the runtime picks. The send is ready where the
  -- channel has room or is closed; on the closed channel it panics.
  pub block_round : MemoryBatchQueue A → A → Ready → MemoryBatchQueue A × Outcome
  unfolding send refuse
  block_round q batch can_send =
      if q.closed
      then (q, panics)
      else if has_room q
      then (send estimated_bytes q batch, ok)
      else (q, waits)
  block_round q batch timer_fires = (refuse q, err_full)
  block_round q batch tick = if q.closed then (q, err_closed) else (q, waits)

-- Whether the runtime may pick the send.
abbrev pub send_is_ready : {A : Type 0} → MemoryBatchQueue A → Bool
send_is_ready q = q.closed || has_room q

module _ {A : Type 0} where
  pub close : MemoryBatchQueue A → MemoryBatchQueue A
  close q = if q.closed then q else record q { closed = true }

  abbrev pub len : MemoryBatchQueue A → ℕ
  len q = q.active_count

  abbrev pub size : MemoryBatchQueue A → ℕ
  size q = q.active_bytes

  pub is_full : MemoryBatchQueue A → Bool
  is_full q = leb q.max_size q.active_count || (ltb 0 q.max_bytes && leb q.max_bytes q.active_bytes)

-- What happens to a queue, in some order. `rounds` is a round of a blocked push.
pub data Call (A : Type 0) : Type 0 where
  pushes : A → Call A
  rounds : A → Ready → Call A
  pops closes : Call A

-- The queue after a call, and how the push or the round of the call ended.
module _ {A : Type 0} (estimated_bytes : A → ℕ) where
  pub step : MemoryBatchQueue A → Call A → MemoryBatchQueue A × Option Outcome
  step q (pushes batch) = let (q', o) = push_batch estimated_bytes q batch in (q', some o)
  step q (rounds batch r) = let (q', o) = block_round estimated_bytes q batch r in (q', some o)
  step q pops = ((pop_batch estimated_bytes q).0, none)
  step q closes = (close q, none)

  pub run : MemoryBatchQueue A → List (Call A) → MemoryBatchQueue A × List (Option Outcome)
  run q [] = (q, [])
  run q (c ∷ cs) = let (q', o) = step q c in let (q'', os) = run q' cs in (q'', o ∷ os)
