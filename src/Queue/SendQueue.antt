-- ===== src/Queue/SendQueue.antt =====
-- `pushData`, `Pop`, `Peek` and `Remove` of internal/queue/queue.go, over the layer in memory of the
-- disk queue. Identifiers, times and the count of retries are left out. The loop of `pushData` has fuel:
-- `none` is a call that has not returned when the fuel is used up. It holds the lock all along, except
-- while it waits under the behaviour block, whose rounds are `wait_round`.
pub mod Laws
mod Tests
use metrics_governor.Prelude.{
  ℕ, zero, suc, Bool, true, false, List, [], ◌∷◌, Option, none, some, if◌then◌else◌,
}
use metrics_governor.Queue.BatchQueue.{
  FullBehavior, drop_oldest, drop_newest, block, other_behavior,
}
use metrics_governor.Queue.FastQueue.{
  FastQueue, Status, ok, queue_closed, queue_full, spills, push as fq_push, pop as fq_pop,
  peek as fq_peek,
}

pub record SendQueue (D : Type 0) : Type 0 where
  pub fq : FastQueue D
  pub full_behavior : FullBehavior
  pub closed : Bool

-- How a push ends. `dropped` is the incoming entry given up without an error, `waits` a push that has
-- entered its wait loop, and `on_disk` a push that the layer in memory cannot take.
pub data PushEnd : Type 0 where
  pushed dropped err_closed err_drop_failed err_timeout err_push waits on_disk : PushEnd

module _ {D : Type 0} (len : D → ℕ) where
  -- What the loop does with the answer of the disk queue, where `again` is the next round after a drop.
  decide_oldest :
      SendQueue D → Status → Option (SendQueue D × PushEnd) → Option (SendQueue D × PushEnd)
  decide_oldest q ok again = again
  decide_oldest q queue_closed again = some (q, err_drop_failed)
  decide_oldest q queue_full again = some (q, err_drop_failed)
  decide_oldest q spills again = some (q, err_drop_failed)

  -- The disk queue is full.
  make_room :
      FullBehavior
      → SendQueue D
      → Status
      → Option (SendQueue D × PushEnd)
      → Option (SendQueue D × PushEnd)
  unfolding decide_oldest
  make_room drop_oldest q dropped_status again = decide_oldest q dropped_status again
  make_room drop_newest q dropped_status again = some (q, dropped)
  make_room block q dropped_status again = some (q, waits)
  make_room other_behavior q dropped_status again = some (q, err_push)

  pub push_loop : ℕ → SendQueue D → D → Option (SendQueue D × PushEnd)
  unfolding make_room
  push_loop zero q d = none
  push_loop (suc fuel) q d =
      let r = fq_push len q.fq d in
      let p = fq_pop len q.fq in
      elim r.1 [
        | ok ↦ some (record q { fq = r.0 }, pushed)
        | queue_closed ↦ some (q, err_push)
        | queue_full ↦ make_room q.full_behavior q p.2 (push_loop fuel (record q { fq = p.0 }) d)
        | spills ↦ some (q, on_disk)
      ]

  pub push_data : ℕ → SendQueue D → D → Option (SendQueue D × PushEnd)
  push_data fuel q d = if q.closed then some (q, err_closed) else push_loop fuel q d

  retried : SendQueue D → Bool → FastQueue D × Status → SendQueue D × PushEnd
  retried q timed_out (fq, ok) = (record q { fq = fq }, pushed)
  retried q timed_out (fq, queue_closed) = (q, if timed_out then err_timeout else waits)
  retried q timed_out (fq, queue_full) = (q, if timed_out then err_timeout else waits)
  retried q timed_out (fq, spills) = (q, on_disk)

  -- One round of the wait loop, from a wake-up to the next wait, and whether the timer has fired.
  pub wait_round : SendQueue D → D → Bool → SendQueue D × PushEnd
  unfolding retried
  wait_round q d timed_out =
      if q.closed then (q, err_closed) else retried q timed_out (fq_push len q.fq d)

  unfoldable pub pop_entry : SendQueue D → SendQueue D × Option D × Status
  pop_entry q =
      let r = fq_pop len q.fq in
      if q.closed then (q, none, queue_closed) else (record q { fq = r.0 }, r.1, r.2)

module _ {D : Type 0} where
  unfoldable pub peek_entry : SendQueue D → SendQueue D × Option D × Status
  peek_entry q =
      let r = fq_peek q.fq in
      if q.closed then (q, none, queue_closed) else (record q { fq = r.0 }, r.1, r.2)

  -- Only the count of retries of the identifier is deleted.
  unfoldable pub remove : SendQueue D → SendQueue D × Status
  remove q = if q.closed then (q, queue_closed) else (q, ok)
