-- ===== src/Buffer/MemoryQueue.antt =====
-- The in-memory failover queue of internal/buffer/memqueue.go. A request is anything with the
-- encoded size that `SizeVT` reports; sizes and sums stay below 2^63, so int64 is ℕ. The slice is
-- the list of its entries, oldest first; `maybeCompact` copies it and changes no entry.
pub mod Laws
mod Tests
use metrics_governor.Prelude.{
  ℕ, zero, suc, ◌+◌, ◌-◌, ◌*◌, ◌≡◌, Bool, true, false, ◌&&◌, not, List, [], ◌∷◌, ◌++◌, Option, none,
  some, length, leb, ltb, ◌==◌, if◌then◌else◌,
}

pub record MemoryQueue (A : Type 0) : Type 0 where
  pub entries : List A
  pub bytes : ℕ
  pub max_size : ℕ
  pub max_bytes : ℕ

-- A limit that is 0 or negative is passed as 0.
pub new_memory_queue : (A : Type 0) → ℕ → ℕ → MemoryQueue A
new_memory_queue A max_size max_bytes = record {
  entries = [];
  bytes = 0;
  max_size = if max_size == 0 then 1000 else max_size;
  max_bytes = if max_bytes == 0 then 256 * 1024 * 1024 else max_bytes;
}

pub data PushResult : Type 0 where
  ok : PushResult
  too_large : ℕ → ℕ → PushResult

module _ {A : Type 0} (size_vt : A → ℕ) where
  -- `q.bytes -= size`, and 0 where that is negative.
  remove_front : MemoryQueue A → List A → MemoryQueue A
  remove_front q [] = q
  remove_front q (x ∷ rest) = record q { entries = rest; bytes = q.bytes - size_vt x }

  pub evict_oldest : MemoryQueue A → MemoryQueue A
  unfolding remove_front
  evict_oldest q = remove_front q q.entries

  -- `for len(q.entries) >= q.maxSize`. The fuel is the number of rounds allowed.
  pub evict_by_count : ℕ → MemoryQueue A → MemoryQueue A
  evict_by_count zero q = q
  evict_by_count (suc fuel) q = elim (leb q.max_size (length q.entries)) [
    | true ↦ evict_by_count fuel (evict_oldest q)
    | false ↦ q
  ]

  -- `for q.bytes+entrySize > q.maxBytes && len(q.entries) > 0`
  pub evict_by_bytes : ℕ → ℕ → MemoryQueue A → MemoryQueue A
  evict_by_bytes zero entry_size q = q
  evict_by_bytes (suc fuel) entry_size q =
      elim (ltb q.max_bytes (q.bytes + entry_size) && ltb 0 (length q.entries)) [
        | true ↦ evict_by_bytes fuel entry_size (evict_oldest q)
        | false ↦ q
      ]

  -- Each loop has the rounds that its entries allow, and one more.
  pub make_room : ℕ → MemoryQueue A → MemoryQueue A
  make_room entry_size q =
      let q' = evict_by_count (suc (length q.entries)) q in
      evict_by_bytes (suc (length q'.entries)) entry_size q'

  append : A → MemoryQueue A → MemoryQueue A
  append req q = record q { entries = q.entries ++ req ∷ []; bytes = q.bytes + size_vt req }

  pub push : MemoryQueue A → A → MemoryQueue A × PushResult
  unfolding append
  push q req =
      if ltb q.max_bytes (size_vt req)
      then (q, too_large (size_vt req) q.max_bytes)
      else (append req (make_room (size_vt req) q), ok)

  pop_front : MemoryQueue A → List A → MemoryQueue A × Option A
  pop_front q [] = (q, none)
  pop_front q (x ∷ rest) = (record q { entries = rest; bytes = q.bytes - size_vt x }, some x)

  pub pop : MemoryQueue A → MemoryQueue A × Option A
  unfolding pop_front
  pop q = pop_front q q.entries

  -- A sequence of calls: `some req` pushes, `none` pops.
  pub step : MemoryQueue A → Option A → MemoryQueue A
  step q (some req) = (push q req).0
  step q none = (pop q).0

  pub run : MemoryQueue A → List (Option A) → MemoryQueue A
  run q [] = q
  run q (o ∷ ops) = run (step q o) ops

abbrev pub len : {A : Type 0} → MemoryQueue A → ℕ
len q = length q.entries

abbrev pub size : {A : Type 0} → MemoryQueue A → ℕ
size q = q.bytes
