-- ===== src/Queue/SendQueue/Laws.antt =====
-- Which entries a push under drop_oldest keeps, and when it returns.
use metrics_governor.Prelude.{
  ℕ, zero, suc, ◌+◌, ◌≤◌, ◌<◌, ◌≡◌, refl, sym, subst, ◌∙◌, Bool, true, false, ◌⊎◌, List, [], ◌∷◌,
  ◌++◌, Option, none, some, length, sum_map, leb, ltb, ◌&&◌, ◌||◌, ◌==◌, arith,
}
use metrics_governor.Buffer.MemoryQueue.Laws.{longest_suffix}
use metrics_governor.Queue.BatchQueue.{drop_oldest}
use metrics_governor.Queue.FastQueue.{ok, push, pop, receive}
use metrics_governor.Queue.FastQueue.Laws.{IsValid, peek-rotates}
use metrics_governor.Queue.SendQueue.{
  SendQueue, PushEnd, pushed, push_loop, push_data, make_room, decide_oldest, peek_entry, remove,
}

module _ {D : Type 0} (len : D → ℕ) where
  -- With a new entry of `n` bytes, these entries keep the limits, where 0 is no limit.
  abbrev pub fits : ℕ → ℕ → ℕ → List D → Bool
  fits max_size max_bytes n ds =
      (max_size == 0 || ltb (length ds) max_size)
      && (max_bytes == 0 || leb (sum_map len ds + n) max_bytes)

  -- Open, with exact counters, and with places in the channel for all entries that may be held.
  pub record IsReady (q : SendQueue D) : Type 0 where
    pub valid : IsValid len q.fq
    pub open_queue : q.closed ≡ false
    pub open_disk : q.fq.closed ≡ false
    pub oldest : q.full_behavior ≡ drop_oldest
    pub limited : 0 < q.fq.max_size
    pub roomy : q.fq.max_size ≤ q.fq.capacity

  -- The entries afterwards, and how the push ended.
  abbrev pub outcome : Option (SendQueue D × PushEnd) → Option (List D × PushEnd)
  outcome o = elim o [ some r ↦ some (r.0.fq.ch, r.1) | none ↦ none ]

  pop-IsReady : (q : SendQueue D) → IsReady q → IsReady (record q { fq = (pop len q.fq).0 })
  unfolding pop receive
  pop-IsReady q r = ground arith

  push_loop_room :
      (fuel : ℕ) (q : SendQueue D) (d : D)
      → IsReady q
      → fits q.fq.max_size q.fq.max_bytes (len d) q.fq.ch ≡ true
      → outcome (push_loop len (suc fuel) q d) ≡ some (q.fq.ch ++ d ∷ [], pushed)
  unfolding push_loop push
  push_loop_room fuel q d r h = ground arith

  push_loop_again :
      (fuel : ℕ) (q : SendQueue D) (d : D)
      → IsReady q
      → fits q.fq.max_size q.fq.max_bytes (len d) q.fq.ch ≡ false
      → push_loop len (suc fuel) q d ≡ push_loop len fuel (record q { fq = (pop len q.fq).0 }) d
  unfolding push_loop push pop make_room decide_oldest
  push_loop_again fuel q d r h = ground arith

  ch-pop :
      (q : SendQueue D) (x : D) (ds : List D)
      → IsReady q
      → q.fq.ch ≡ x ∷ ds
      → ((pop len q.fq).0.ch ≡ ds)
        × ((pop len q.fq).0.max_size ≡ q.fq.max_size)
        × ((pop len q.fq).0.max_bytes ≡ q.fq.max_bytes)
  unfolding pop receive
  ch-pop q x ds r c = ground arith

  push_loop_oldest :
      (fuel : ℕ) (q : SendQueue D) (d : D) (ds : List D)
      → q.fq.ch ≡ ds
      → length ds < fuel
      → IsReady q
      → (q.fq.max_bytes ≡ 0) ⊎ (len d ≤ q.fq.max_bytes)
      → outcome (push_loop len fuel q d)
        ≡ some (longest_suffix (fits q.fq.max_size q.fq.max_bytes (len d)) ds ++ d ∷ [], pushed)
  unfolding longest_suffix
  push_loop_oldest zero q d ds c f r h = absurd (omega arith)
  push_loop_oldest (suc fuel) q d [] c f r h = ground (arith, push_loop_room fuel q d r)
  push_loop_oldest (suc fuel) q d (x ∷ ds) c f r h =
      let q' = record q { fq = (pop len q.fq).0 } in
      ground (
        arith,
        push_loop_room fuel q d r,
        push_loop_again fuel q d r,
        ch-pop q x ds r c,
        push_loop_oldest fuel q' d ds (ch-pop q x ds r c).0 (omega arith) (pop-IsReady q r)
            (subst (λ m. (m ≡ 0) ⊎ (len d ≤ m)) (sym (ch-pop q x ds r c).2) h),
      )

  -- A push under drop_oldest of an entry that fits on its own returns, within as many rounds as there
  -- are entries and one more: it is accepted behind the longest part of the queue, from its newest
  -- entry on, that fits together with it. The queue is open, its counters are exact and its limit on the
  -- entries is above 0 and at most the capacity of the channel in memory, so that no entry goes to disk.
  pub push_data_oldest :
      (q : SendQueue D) (d : D)
      → IsReady q
      → (q.fq.max_bytes ≡ 0) ⊎ (len d ≤ q.fq.max_bytes)
      → outcome (push_data len (suc (length q.fq.ch)) q d)
        ≡ some
            (longest_suffix (fits q.fq.max_size q.fq.max_bytes (len d)) q.fq.ch ++ d ∷ [], pushed)
  unfolding push_data
  push_data_oldest q d r h =
      ground (arith, push_loop_oldest (suc (length q.fq.ch)) q d q.fq.ch refl (omega arith) r h)

  max_bytes-pop : (q : SendQueue D) → (pop len q.fq).0.max_bytes ≡ q.fq.max_bytes
  unfolding pop receive
  max_bytes-pop q = ground arith

  push_loop_forever :
      (fuel : ℕ) (q : SendQueue D) (d : D)
      → IsReady q
      → 0 < q.fq.max_bytes
      → q.fq.max_bytes < len d
      → push_loop len fuel q d ≡ none
  unfolding push_loop
  push_loop_forever zero q d r p h = refl
  push_loop_forever (suc fuel) q d r p h =
      push_loop_again fuel q d r (ground arith)
      ∙ push_loop_forever fuel (record q { fq = (pop len q.fq).0 }) d (pop-IsReady q r)
          (subst (λ m. 0 < m) (sym (max_bytes-pop q)) p)
          (subst (λ m. m < len d) (sym (max_bytes-pop q)) h)

  -- A push under drop_oldest of an entry that is larger than the byte limit, which is above 0, never
  -- returns: no number of rounds is enough. The queue is open, its counters are exact and its limit on the
  -- entries is above 0 and at most the capacity of the channel in memory, so that no entry goes to disk.
  pub push_data_forever :
      (fuel : ℕ) (q : SendQueue D) (d : D)
      → IsReady q
      → 0 < q.fq.max_bytes
      → q.fq.max_bytes < len d
      → push_data len fuel q d ≡ none
  unfolding push_data
  push_data_forever fuel q d r p h = ground (arith, push_loop_forever fuel q d r p h)

  -- A peek at an open queue returns the oldest entry, and a remove after it removes nothing: the entry is
  -- still there, behind all others.
  pub remove-peek_entry :
      (q : SendQueue D) (x : D) (rest : List D)
      → q.closed ≡ false
      → q.fq.closed ≡ false
      → q.fq.ch ≡ x ∷ rest
      → (peek_entry q).1 ≡ some x
        × (remove (peek_entry q).0).1 ≡ ok
        × (remove (peek_entry q).0).0.fq.ch ≡ rest ++ x ∷ []
  unfolding peek_entry remove
  remove-peek_entry q x rest o e c = ground (arith, peek-rotates len q.fq x rest e c)
