-- ===== src/Queue/BatchQueue/Race.antt =====
-- Pushes of internal/queue/batchqueue.go that overlap: each sends its batch under the lock and updates the counters
-- only after it has unlocked, and the check of the byte limit reads the counters.
use metrics_governor.Prelude.{
  ℕ, zero, suc, All, ◌+◌, ◌*◌, ◌≤◌, ◌<◌, ◌≡◌, false, List, [], ◌∷◌, ◌++◌, arith, length,
  length-append, sum_map, sum_map-append,
}
use metrics_governor.Queue.BatchQueue.{
  MemoryBatchQueue, drop_newest, Outcome, ok, push_locked, finish, pop_batch, enqueue, count_push,
  refuse, handle_full,
}

-- The queue, and the batches that were sent and not yet counted.
pub record Shared (A : Type 0) : Type 0 where
  pub queue : MemoryBatchQueue A
  pub uncounted : List A

mul_mono : (a b c : ℕ) → a ≤ b → a * c ≤ b * c
mul_mono a b zero h = omega arith
mul_mono a b (suc c) h = omega (arith, mul_mono a b c h)

module _ {A : Type 0} (estimated_bytes : A → ℕ) where
  -- What a push leaves when it unlocks. One that sends has its counters to update; the only counter of one that
  -- does not is `total_dropped`, which no check reads.
  unfoldable pub entered : Outcome → MemoryBatchQueue A → A → List A → Shared A
  entered ok q batch bs = record { queue = q; uncounted = batch ∷ bs }
  entered o q batch bs = record { queue = finish estimated_bytes o q batch; uncounted = bs }

  unfoldable pub enter : Shared A → A → Shared A
  enter s batch =
      let r = push_locked estimated_bytes s.queue batch in entered r.1 r.0 batch s.uncounted

  -- What the pushes lead to, any number of them at a time, where one of at most `most` bytes enters while at
  -- most `others` of them have counters to update, in any order. A pop comes where no push has.
  pub data Reach (others most : ℕ) (q : MemoryBatchQueue A) : Shared A → Type 0 where
    starts : Reach others most q (record { queue = q; uncounted = [] })
    enters :
        {s : Shared A} (batch : A)
        → Reach others most q s
        → length s.uncounted ≤ others
        → estimated_bytes batch ≤ most
        → Reach others most q (enter s batch)
    counts :
        {p : MemoryBatchQueue A} (bs : List A) (batch : A) (cs : List A)
        → Reach others most q (record { queue = p; uncounted = bs ++ batch ∷ cs })
        → Reach others most q
            (record { queue = finish estimated_bytes ok p batch; uncounted = bs ++ cs })
    pops :
        {p : MemoryBatchQueue A}
        → Reach others most q (record { queue = p; uncounted = [] })
        → Reach others most q (record { queue = (pop_batch estimated_bytes p).0; uncounted = [] })

  -- The behaviour is drop_newest with a byte limit, which the counted and the uncounted bytes exceed by `over` at most.
  pub record IsWithin (over : ℕ) (s : Shared A) : Type 0 where
    pub newest : s.queue.full_behavior ≡ drop_newest
    pub limited : 0 < s.queue.max_bytes
    pub within :
        s.queue.active_bytes + sum_map estimated_bytes s.uncounted ≤ s.queue.max_bytes + over

  abbrev IsSmall : ℕ → List A → Type 0
  IsSmall most bs = All (λ b. estimated_bytes b ≤ most) bs

  sum-IsSmall :
      (most : ℕ) (bs : List A) → IsSmall most bs → sum_map estimated_bytes bs ≤ length bs * most
  sum-IsSmall most [] h = omega arith
  sum-IsSmall most (b ∷ bs) h = omega (arith, h.0, sum-IsSmall most bs h.1)

  sum-others :
      (most others : ℕ) (bs : List A)
      → IsSmall most bs
      → length bs ≤ others
      → sum_map estimated_bytes bs ≤ others * most
  sum-others most others bs h k =
      omega (arith, sum-IsSmall most bs h, mul_mono (length bs) others most k)

  IsSmall-middle :
      (most : ℕ) (bs : List A) (b : A) (cs : List A)
      → IsSmall most (bs ++ b ∷ cs)
      → IsSmall most (bs ++ cs)
  IsSmall-middle most [] b cs h = h.1
  IsSmall-middle most (a ∷ bs) b cs h = (h.0, IsSmall-middle most bs b cs h.1)

  enter-IsSmall :
      (most : ℕ) (s : Shared A) (batch : A)
      → estimated_bytes batch ≤ most
      → IsSmall most s.uncounted
      → IsSmall most (enter s batch).uncounted
  unfolding enter entered push_locked handle_full
  enter-IsSmall most s batch h k = ground arith

  enter-IsWithin :
      (over : ℕ) (s : Shared A) (batch : A)
      → sum_map estimated_bytes s.uncounted ≤ over
      → IsWithin over s
      → IsWithin over (enter s batch)
  unfolding enter entered push_locked handle_full finish enqueue refuse
  enter-IsWithin over s batch h w = ground arith

  counts-IsWithin :
      (over : ℕ) (p : MemoryBatchQueue A) (bs : List A) (b : A) (cs : List A)
      → IsWithin over (record { queue = p; uncounted = bs ++ b ∷ cs })
      → IsWithin over (record { queue = finish estimated_bytes ok p b; uncounted = bs ++ cs })
  unfolding finish count_push
  counts-IsWithin over p bs b cs w =
      ground
        (arith, sum_map-append estimated_bytes bs (b ∷ cs), sum_map-append estimated_bytes bs cs)

  pops-IsWithin :
      (over : ℕ) (p : MemoryBatchQueue A)
      → IsWithin over (record { queue = p; uncounted = [] })
      → IsWithin over (record { queue = (pop_batch estimated_bytes p).0; uncounted = [] })
  unfolding pop_batch
  pops-IsWithin over p w = ground arith

  Reach-IsSmall :
      {others most : ℕ} {q : MemoryBatchQueue A} {s : Shared A}
      → IsWithin (others * most) (record { queue = q; uncounted = [] })
      → Reach others most q s
      → IsWithin (others * most) s × IsSmall most s.uncounted
  Reach-IsSmall w starts = (w, tt)
  Reach-IsSmall {others} {most} w (enters {s} batch r h k) =
      let i = Reach-IsSmall w r in
      (
        enter-IsWithin (others * most) s batch (sum-others most others s.uncounted i.1 h) i.0,
        enter-IsSmall most s batch k i.1,
      )
  Reach-IsSmall {others} {most} w (counts {p} bs batch cs r) =
      let i = Reach-IsSmall w r in
      (counts-IsWithin (others * most) p bs batch cs i.0, IsSmall-middle most bs batch cs i.1)
  Reach-IsSmall {others} {most} w (pops {p} r) =
      (pops-IsWithin (others * most) p (Reach-IsSmall w r).0, tt)

  -- With the behaviour drop_newest and a byte limit, where pushes overlap: if each push enters while at most
  -- `others` pushes have not yet updated the counters, and its batch has at most `most` bytes, the counted
  -- and the uncounted bytes of a queue that starts within its limit never exceed the limit by more than
  -- others · most, whatever the order of the pushes, with pops at the times when no push is under way.
  pub Reach-IsWithin :
      (others most : ℕ) (q : MemoryBatchQueue A) (s : Shared A)
      → q.full_behavior ≡ drop_newest
      → 0 < q.max_bytes
      → q.active_bytes ≤ q.max_bytes
      → Reach others most q s
      → s.queue.active_bytes + sum_map estimated_bytes s.uncounted
        ≤ s.queue.max_bytes + others * most
  Reach-IsWithin others most q s n l h r =
      (Reach-IsSmall (record { newest = n; limited = l; within = omega (arith, h) }) r).0.within

  -- Two pushes that overlap are both accepted where either fits under the limit and both do not: the queue,
  -- which has room for two, then holds more bytes than its limit.
  overlap_over :
      (q : MemoryBatchQueue A) (a b : A)
      → q.closed ≡ false
      → length q.ch + 1 < q.max_size
      → q.active_bytes + estimated_bytes a ≤ q.max_bytes
      → q.active_bytes + estimated_bytes b ≤ q.max_bytes
      → q.max_bytes < q.active_bytes + estimated_bytes a + estimated_bytes b
      → (let s = enter (enter (record { queue = q; uncounted = [] }) a) b in
          (s.uncounted ≡ b ∷ a ∷ [])
          × (q.max_bytes
              < (finish estimated_bytes ok (finish estimated_bytes ok s.queue a) b).active_bytes))
  unfolding enter entered push_locked finish enqueue count_push
  overlap_over q a b o r h k m = ground (arith, length-append q.ch (a ∷ []))
