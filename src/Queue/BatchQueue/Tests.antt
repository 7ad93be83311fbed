-- ===== src/Queue/BatchQueue/Tests.antt =====
-- The batch queue at concrete inputs: a batch is its own size.
use metrics_governor.Prelude.{
  ℕ, ◌≡◌, ◌≤◌, ◌+◌, ◌*◌, sum_map, refl, true, false, List, [], ◌∷◌, arith, length,
}
use metrics_governor.Queue.BatchQueue.{
  MemoryBatchQueue, FullBehavior, drop_oldest, drop_newest, block, waits, panics, Call, pushes,
  pops, closes, can_send, push_batch, block_round, close, run, send_is_ready, handle_full,
  push_again, drop_front, enqueue, count_push, push_locked, finish, ok, is_full,
}
use metrics_governor.Queue.BatchQueue.Race.{
  Shared, Reach, starts, enters, counts, enter, entered, Reach-IsWithin,
}
use metrics_governor.Queue.BatchQueue.Laws.{IsValid, accounted, decided, run-accounted}
use metrics_governor.Queue.BatchQueue.Limit.{push_block_close_panics}

abbrev itself : ℕ → ℕ
itself n = n

abbrev held : FullBehavior → List ℕ → ℕ → MemoryBatchQueue ℕ
held b ch bytes = record {
  ch = ch;
  max_size = 2;
  max_bytes = 10;
  full_behavior = b;
  active_count = length ch;
  active_bytes = bytes;
  total_pushed = 2;
  total_popped = 0;
  total_dropped = 0;
  total_bytes = 9;
  closed = false;
}

held-IsValid : (b : FullBehavior) → IsValid itself (held b (4 ∷ 5 ∷ []) 9)
held-IsValid b = ground arith

abbrev calls : List (Call ℕ)
calls = pushes 4 ∷ pushes 7 ∷ pushes 2 ∷ pops ∷ closes ∷ pushes 1 ∷ []

push_drops_oldest : (push_batch itself (held drop_oldest (4 ∷ 5 ∷ []) 9) 3).0.ch ≡ 5 ∷ 3 ∷ []
unfolding push_batch push_locked handle_full push_again drop_front enqueue finish count_push
push_drops_oldest = refl

is_full-held : is_full (held block (4 ∷ 5 ∷ []) 9) ≡ true
unfolding is_full
is_full-held = refl

run-accounted_example :
    accounted (run itself (held drop_newest (4 ∷ 5 ∷ []) 9) calls).0
    ≡ 2 + decided (run itself (held drop_newest (4 ∷ 5 ∷ []) 9) calls).1
run-accounted_example =
    run-accounted itself (held drop_newest (4 ∷ 5 ∷ []) 9) calls (held-IsValid drop_newest)

-- Two pushes of 6 bytes overlap on an empty queue with a limit of 10 bytes: 12 bytes are counted in the end.
abbrev queue : MemoryBatchQueue ℕ
queue = held drop_newest [] 0

abbrev twice : Shared ℕ
twice = enter itself (enter itself (record { queue = queue; uncounted = [] }) 6) 6

abbrev counted : Shared ℕ
counted = record { queue = finish itself ok (finish itself ok twice.queue 6) 6; uncounted = [] }

overlapped : Reach itself 1 6 queue counted
unfolding enter entered push_locked handle_full finish enqueue count_push
overlapped = counts [] 6 [] (
    counts (6 ∷ []) 6 []
      (enters 6 (enters 6 starts (omega arith) (omega arith)) (omega arith) (omega arith)))

overlapped_bytes : counted.queue.active_bytes ≡ 12
unfolding enter entered push_locked handle_full finish enqueue count_push
overlapped_bytes = refl

Reach-IsWithin_example :
    counted.queue.active_bytes + sum_map itself counted.uncounted ≤ counted.queue.max_bytes + 1 * 6
Reach-IsWithin_example =
    Reach-IsWithin itself 1 6 queue counted refl (omega arith) (omega arith) overlapped

push_block_close_panics_example :
    push_batch itself (held block (4 ∷ 5 ∷ []) 9) 1 ≡ (held block (4 ∷ 5 ∷ []) 9, waits)
    × send_is_ready (held block (4 ∷ 5 ∷ []) 9) ≡ false
    × send_is_ready (close (held block (4 ∷ 5 ∷ []) 9)) ≡ true
    × (block_round itself (close (held block (4 ∷ 5 ∷ []) 9)) 1 can_send).1 ≡ panics
push_block_close_panics_example =
    push_block_close_panics itself (held block (4 ∷ 5 ∷ []) 9) 1 refl refl (omega arith)
