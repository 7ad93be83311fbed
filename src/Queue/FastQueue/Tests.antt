-- ===== src/Queue/FastQueue/Tests.antt =====
-- The layer in memory at concrete blocks: a block is its own length.
use metrics_governor.Prelude.{ℕ, ◌≡◌, refl, false, [], ◌∷◌}
use metrics_governor.Queue.FastQueue.{FastQueue, push, queue_full, spills}

abbrev itself : ℕ → ℕ
itself n = n

abbrev held : FastQueue ℕ
held = record {
  ch = 4 ∷ 5 ∷ 6 ∷ [];
  capacity = 3;
  max_size = 9;
  max_bytes = 20;
  inmemory_bytes = 15;
  active_count = 3;
  total_bytes = 15;
  closed = false;
}

push_over : push itself held 6 ≡ (held, queue_full)
unfolding push
push_over = refl

push_spills : push itself held 5 ≡ (held, spills)
unfolding push
push_spills = refl
