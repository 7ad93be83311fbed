-- ===== src/Queue/SendQueue/Tests.antt =====
-- The send queue at concrete entries: an entry is its own length.
use metrics_governor.Prelude.{ℕ, ◌≡◌, refl, false, true, [], ◌∷◌, some, none, inr, arith}
use metrics_governor.Buffer.MemoryQueue.Laws.{longest_suffix}
use metrics_governor.Queue.BatchQueue.{drop_oldest}
use metrics_governor.Queue.FastQueue.{push}
use metrics_governor.Queue.SendQueue.{
  SendQueue, push_data, pushed, wait_round, retried, err_timeout,
}
use metrics_governor.Queue.SendQueue.Laws.{IsReady, outcome, push_data_oldest, push_data_forever}

abbrev itself : ℕ → ℕ
itself n = n

abbrev held : SendQueue ℕ
held = record {
  fq = record {
    ch = 4 ∷ 5 ∷ 6 ∷ [];
    capacity = 8;
    max_size = 4;
    max_bytes = 20;
    inmemory_bytes = 15;
    active_count = 3;
    total_bytes = 15;
    closed = false;
  };
  full_behavior = drop_oldest;
  closed = false;
}

held-IsReady : IsReady itself held
held-IsReady = record {
  valid = record { counted = refl; measured = refl; inmemory = refl };
  open_queue = refl;
  open_disk = refl;
  oldest = refl;
  limited = omega arith;
  roomy = omega arith;
}

wait_round_timeout : wait_round itself held 9 true ≡ (held, err_timeout)
unfolding wait_round retried push
wait_round_timeout = refl

push_data_oldest_example : outcome itself (push_data itself 4 held 10) ≡ some (6 ∷ 10 ∷ [], pushed)
unfolding longest_suffix
push_data_oldest_example = push_data_oldest itself held 10 held-IsReady (inr (omega arith))

push_data_forever_example : push_data itself 100 held 21 ≡ none
push_data_forever_example =
    push_data_forever itself 100 held 21 held-IsReady (omega arith) (omega arith)
