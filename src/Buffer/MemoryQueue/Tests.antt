-- ===== src/Buffer/MemoryQueue/Tests.antt =====
-- The failover queue at concrete inputs: a request is its own size.
use metrics_governor.Prelude.{ℕ, ◌≡◌, refl, [], ◌∷◌, arith}
use metrics_governor.Buffer.MemoryQueue.{
  MemoryQueue, push, ok, too_large, evict_by_count, evict_by_bytes, evict_oldest, make_room,
}
use metrics_governor.Buffer.MemoryQueue.Laws.{IsValid, push-entries, longest_suffix}

abbrev itself : ℕ → ℕ
itself n = n

abbrev held : MemoryQueue ℕ
held = record { entries = 5 ∷ 3 ∷ 2 ∷ []; bytes = 10; max_size = 3; max_bytes = 12 }

held-IsValid : IsValid itself held
held-IsValid = ground arith

push_evicts : (push itself held 8).0.entries ≡ 2 ∷ 8 ∷ []
unfolding push make_room evict_by_count evict_by_bytes evict_oldest
push_evicts = refl

push_refuses : push itself held 13 ≡ (held, too_large 13 12)
unfolding push
push_refuses = refl

push-entries_example : ((push itself held 8).1 ≡ ok) × ((push itself held 8).0.entries ≡ 2 ∷ 8 ∷ [])
unfolding longest_suffix
push-entries_example = push-entries itself held 8 held-IsValid (omega arith)
