-- ===== src/Queue/FastQueue.antt =====
-- The layer in memory of FastQueue of internal/queue/fastqueue.go, as long as nothing is on disk:
-- where the channel is full and the source goes on to its files, the model answers `spills` and stops.
-- A block is any value with the length of its data. Counters stay below 2^63.
pub mod Laws
mod Tests
use metrics_governor.Prelude.{
  ℕ, ◌+◌, ◌-◌, Bool, true, false, ◌&&◌, ◌||◌, List, [], ◌∷◌, ◌++◌, Option, none, some, length, leb,
  ltb, ◌==◌, if◌then◌else◌,
}

-- A limit of 0 or less is 0, and is no limit. `capacity` is the number of places of the channel.
pub record FastQueue (D : Type 0) : Type 0 where
  pub ch : List D
  pub capacity : ℕ
  pub max_size : ℕ
  pub max_bytes : ℕ
  pub inmemory_bytes : ℕ
  pub active_count : ℕ
  pub total_bytes : ℕ
  pub closed : Bool

abbrev pub default_inmemory_blocks : ℕ
default_inmemory_blocks = 2048

pub new_fast_queue : (D : Type 0) → ℕ → ℕ → ℕ → FastQueue D
new_fast_queue D max_inmemory_blocks max_size max_bytes = record {
  ch = [];
  capacity = if max_inmemory_blocks == 0 then default_inmemory_blocks else max_inmemory_blocks;
  max_size = max_size;
  max_bytes = max_bytes;
  inmemory_bytes = 0;
  active_count = 0;
  total_bytes = 0;
  closed = false;
}

pub data Status : Type 0 where
  ok queue_closed queue_full spills : Status

module _ {D : Type 0} (len : D → ℕ) where
  abbrev pub over_limit : FastQueue D → D → Bool
  over_limit fq d =
      (ltb 0 fq.max_size && leb fq.max_size fq.active_count)
      || (ltb 0 fq.max_bytes && ltb fq.max_bytes (fq.total_bytes + len d))

  unfoldable pub push : FastQueue D → D → FastQueue D × Status
  push fq d =
      if fq.closed
      then (fq, queue_closed)
      else if over_limit fq d
      then (fq, queue_full)
      else if ltb (length fq.ch) fq.capacity
      then (
        record fq {
          ch = fq.ch ++ d ∷ [];
          inmemory_bytes = fq.inmemory_bytes + len d;
          active_count = fq.active_count + 1;
          total_bytes = fq.total_bytes + len d;
        },
        ok,
      )
      else (fq, spills)

  unfoldable pub receive : FastQueue D → List D → FastQueue D × Option D
  receive fq [] = (fq, none)
  receive fq (b ∷ rest) = (
    record fq {
      ch = rest;
      inmemory_bytes = fq.inmemory_bytes - len b;
      active_count = fq.active_count - 1;
      total_bytes = fq.total_bytes - len b;
    },
    some b,
  )

  -- An empty queue answers `none`, without an error.
  unfoldable pub pop : FastQueue D → FastQueue D × Option D × Status
  unfolding receive
  pop fq =
      if fq.closed then (fq, none, queue_closed) else let r = receive fq fq.ch in (r.0, r.1, ok)

module _ {D : Type 0} where
  -- The block that is taken from the channel and put back.
  unfoldable pub rotate : FastQueue D → List D → FastQueue D × Option D
  rotate fq [] = (fq, none)
  rotate fq (b ∷ rest) = (record fq { ch = rest ++ b ∷ [] }, some b)

  unfoldable pub peek : FastQueue D → FastQueue D × Option D × Status
  unfolding rotate
  peek fq =
      if fq.closed then (fq, none, queue_closed) else let r = rotate fq fq.ch in (r.0, r.1, ok)

  abbrev pub size : FastQueue D → ℕ
  size fq = fq.total_bytes
