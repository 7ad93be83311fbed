-- ===== src/Prw/RetryQueue/Laws.antt =====
-- What the rounds of the retry loop and the drain do to the queue, and the delays between rounds.
use metrics_governor.Prelude.{
  ℕ, zero, suc, ◌*◌, ◌^◌, ◌≤◌, ◌≡◌, ◌∙◌, sym, ap, refl, min, Bool, true, false, ◌==◌, drop, List,
  [], ◌∷◌, ◌++◌, append_assoc, append-nil, Option, none, some, length, length-append, arith,
  if◌then◌else◌,
}
use native.Mathlib.Nat.{pow-suc, mul_assoc}
use metrics_governor.Queue.FastQueue.{peek, rotate, pop, receive}
use metrics_governor.Queue.SendQueue.{SendQueue, peek_entry, pop_entry, remove}
use metrics_governor.Prw.Proto.Loop.{Decoded, ok, err, panics, stuck}
use metrics_governor.Prw.Proto.Messages.{WriteRequest}
use metrics_governor.Prw.Proto.Messages.Request.{unmarshal_request}
use metrics_governor.Prw.RetryQueue.{
  RetryQueue, done, process_queue, unless_crashed, run_rounds, exported, attempt, peeked, removed,
  Drained, ends, crashed, out_of_fuel, taken, crash_or, drain_loop, drain_queue, next_delay,
  min_duration,
}

-- The delay after a number of failed rounds in a row.
unfoldable pub delay_after : ℕ → ℕ → ℕ → ℕ
delay_after retry_interval max_retry_delay zero = retry_interval
delay_after retry_interval max_retry_delay (suc n) =
    next_delay retry_interval max_retry_delay (delay_after retry_interval max_retry_delay n) false

mul-pow-suc : (i n : ℕ) → i * 2 ^ suc n ≡ i * 2 ^ n * 2
mul-pow-suc i n = ap (λ k. i * k) (pow-suc 2 n) ∙ sym (mul_assoc i (2 ^ n) 2)

-- With a retry interval up to the maximal delay, the delay doubles with each failed round in a row up to
-- the maximal delay.
delay_after_lem :
    (retry_interval max_retry_delay n : ℕ)
    → retry_interval ≤ max_retry_delay
    → delay_after retry_interval max_retry_delay n ≡ min (retry_interval * 2 ^ n) max_retry_delay
unfolding delay_after next_delay min_duration
delay_after_lem i m zero h = ground arith
delay_after_lem i m (suc n) h = ground (arith, delay_after_lem i m n h, mul-pow-suc i n)

-- Both queues are open.
pub record IsOpen (q : RetryQueue) : Type 0 where
  pub open_queue : q.send_queue.closed ≡ false
  pub open_disk : q.send_queue.fq.closed ≡ false

abbrev pub entries : RetryQueue → List (List ℕ)
entries q = q.send_queue.fq.ch

-- A round leaves the queues open, and with as many entries.
record Keeps (q r : RetryQueue) : Type 0 where
  still_open : IsOpen r
  as_many : length (entries r) ≡ length (entries q)

exported-Keeps :
    (answer : Bool) (q : RetryQueue) (s : SendQueue (List ℕ)) (v : Decoded WriteRequest)
    → s.closed ≡ false
    → s.fq.closed ≡ false
    → length s.fq.ch ≡ length (entries q)
    → Keeps q (attempt answer q s v).0
unfolding attempt exported removed remove
exported-Keeps answer q s (ok req) o c h = ground arith
exported-Keeps answer q s (err e) o c h = ground arith
exported-Keeps answer q s panics o c h = ground arith
exported-Keeps answer q s stuck o c h = ground arith

process_queue-Keeps_at :
    (answer : Bool) (q : RetryQueue) (ds : List (List ℕ))
    → entries q ≡ ds
    → IsOpen q
    → Keeps q (process_queue answer q).0
unfolding process_queue peeked peek_entry peek rotate
process_queue-Keeps_at answer q [] c o = ground arith
process_queue-Keeps_at answer q (x ∷ ds) c o = ground (
  arith,
  exported-Keeps answer q (peek_entry q.send_queue).0 (unmarshal_request x),
  length-append ds (x ∷ []),
)

process_queue-Keeps :
    (answer : Bool) (q : RetryQueue) → IsOpen q → Keeps q (process_queue answer q).0
process_queue-Keeps answer q o = process_queue-Keeps_at answer q (entries q) refl o

-- No round of the retry loop takes an entry out of an open queue: after any answers of the exporter it
-- holds as many entries as before, where no round panics.
run_rounds-length :
    (answers : List Bool) (q r : RetryQueue)
    → IsOpen q
    → run_rounds q answers ≡ some r
    → length (entries r) ≡ length (entries q)
unfolding run_rounds unless_crashed
run_rounds-length [] q r o e = ground (arith, e)
run_rounds-length (answer ∷ answers) q r o e =
    let p = process_queue answer q in
    let k = process_queue-Keeps answer q o in
    ground (arith, e, k.as_many, run_rounds-length answers p.0 r k.still_open)

unfoldable pub replicate {ℓ} : {A : Type ℓ} → ℕ → A → List A
replicate zero x = []
replicate (suc n) x = x ∷ replicate n x

-- The entries and what was sent.
abbrev pub view : RetryQueue → List (List ℕ) × List WriteRequest
view q = (q.send_queue.fq.ch, q.sent)

abbrev pub view_of : Option RetryQueue → Option (List (List ℕ) × List WriteRequest)
view_of o = elim o [ some q ↦ some (view q) | none ↦ none ]

process_queue_single :
    (q : RetryQueue) (x : List ℕ) (req : WriteRequest)
    → IsOpen q
    → q.has_exporter ≡ true
    → entries q ≡ x ∷ []
    → unmarshal_request x ≡ ok req
    → (view (process_queue true q).0 ≡ (x ∷ [], q.sent ++ req ∷ []))
      × ((process_queue true q).1 ≡ done true)
      × ((process_queue true q).0.has_exporter ≡ true)
unfolding process_queue peeked attempt exported removed peek_entry remove peek rotate
process_queue_single q x req o h c u = ground (arith, u)

-- A request that waits alone in an open queue with an exporter, and that the exporter accepts, is sent again
-- in each round, as often as there are rounds, and still waits.
pub run_rounds_resends :
    (n : ℕ) (q : RetryQueue) (x : List ℕ) (req : WriteRequest)
    → IsOpen q
    → q.has_exporter ≡ true
    → entries q ≡ x ∷ []
    → unmarshal_request x ≡ ok req
    → view_of (run_rounds q (replicate n true)) ≡ some (x ∷ [], q.sent ++ replicate n req)
unfolding run_rounds replicate unless_crashed
run_rounds_resends zero q x req o h c u = ground (arith, append-nil q.sent)
run_rounds_resends (suc n) q x req o h c u =
    let p = process_queue_single q x req o h c u in
    ground (
      arith,
      p,
      run_rounds_resends n (process_queue true q).0 x req (process_queue-Keeps true q o).still_open
          p.2 (ap (λ v. v.0) p.0) u,
      append_assoc q.sent (req ∷ []) (replicate n req),
    )

unfoldable pub is_panic : Decoded WriteRequest → Bool
is_panic (ok req) = false
is_panic (err e) = false
is_panic panics = true
is_panic stuck = true

-- The entries before the first one that panics when it is unmarshalled.
unfoldable pub before_panic : List (List ℕ) → List (List ℕ)
before_panic [] = []
before_panic (d ∷ ds) =
    let rest = before_panic ds in if is_panic (unmarshal_request d) then [] else d ∷ rest

-- What the exporter accepts of the entries that can be unmarshalled.
unfoldable pub accepted : (WriteRequest → Bool) → List (List ℕ) → List WriteRequest
accepted answer [] = []
accepted answer (d ∷ ds) = taken answer (unmarshal_request d) ++ accepted answer ds

-- Whether the drain returns or panics, and the queue that it leaves.
unfoldable pub result : Drained → Option (Bool × List (List ℕ) × List WriteRequest)
result (ends q) = some (true, entries q, q.sent)
result (crashed q) = some (false, entries q, q.sent)
result out_of_fuel = none

module _ (answer : WriteRequest → Bool) where
  -- What is left of the entries, and sent.
  abbrev pub drains : List (List ℕ) → List WriteRequest → Bool × List (List ℕ) × List WriteRequest
  drains ds sent =
      let p = before_panic ds in
      (length p == length ds, drop (suc (length p)) ds, sent ++ accepted answer p)

  drain_loop-nil :
      (fuel : ℕ) (q : RetryQueue)
      → IsOpen q
      → entries q ≡ []
      → result (drain_loop (suc fuel) answer q) ≡ some (true, [], q.sent)
  unfolding drain_loop pop_entry pop receive result
  drain_loop-nil fuel q o c = ground arith

  abbrev popped : RetryQueue → Decoded WriteRequest → RetryQueue
  popped q v = record q {
    send_queue = (pop_entry length q.send_queue).0;
    sent = q.sent ++ taken answer v;
  }

  drain_loop-cons :
      (fuel : ℕ) (q : RetryQueue) (x : List ℕ) (ds : List (List ℕ))
      → IsOpen q
      → entries q ≡ x ∷ ds
      → (drain_loop (suc fuel) answer q
          ≡ crash_or
              (unmarshal_request x)
              (popped q (unmarshal_request x))
              (drain_loop fuel answer (popped q (unmarshal_request x))))
        × IsOpen (popped q (unmarshal_request x))
        × (entries (popped q (unmarshal_request x)) ≡ ds)
  unfolding drain_loop pop_entry pop receive
  drain_loop-cons fuel q x ds o c = ground arith

  crash_or_lem :
      (v : Decoded WriteRequest) (x : List ℕ) (ds : List (List ℕ)) (q : RetryQueue) (d : Drained)
      → unmarshal_request x ≡ v
      → entries (popped q v) ≡ ds
      → result d ≡ some (drains ds (q.sent ++ taken answer v))
      → result (crash_or v (popped q v) d) ≡ some (drains (x ∷ ds) q.sent)
  unfolding before_panic accepted is_panic taken crash_or result
  crash_or_lem (ok req) x ds q d u c h =
      ground
        (arith, u, append_assoc q.sent (taken answer (ok req)) (accepted answer (before_panic ds)))
  crash_or_lem (err e) x ds q d u c h = ground (arith, u, append-nil q.sent)
  crash_or_lem panics x ds q d u c h = ground (arith, u, append-nil q.sent)
  crash_or_lem stuck x ds q d u c h = ground (arith, u, append-nil q.sent)

  drain_loop_lem :
      (ds : List (List ℕ)) (q : RetryQueue)
      → IsOpen q
      → entries q ≡ ds
      → result (drain_loop (suc (length ds)) answer q) ≡ some (drains ds q.sent)
  unfolding before_panic accepted
  drain_loop_lem [] q o c = ground (arith, drain_loop-nil 0 q o c, append-nil q.sent)
  drain_loop_lem (x ∷ ds) q o c =
      let v = unmarshal_request x in
      let (step, still_open, rest) = drain_loop-cons (suc (length ds)) q x ds o c in
      ap result step
      ∙ crash_or_lem v x ds q (drain_loop (suc (length ds)) answer (popped q v)) refl rest
          (drain_loop_lem ds (popped q v) still_open rest)

-- A drain of an open queue returns or panics, with fuel for one round more than there are entries. With no
-- exporter it returns and changes nothing. With one, it sends those entries before the first that panics when
-- it is unmarshalled which can be unmarshalled and which the exporter accepts, each once and oldest first; it
-- panics if there is such an entry and leaves what is behind it, and else it returns and the queue is empty.
pub drain_queue_lem :
    (answer : WriteRequest → Bool) (q : RetryQueue)
    → IsOpen q
    → result (drain_queue (suc (length (entries q))) answer q)
      ≡ some
          (if q.has_exporter then drains answer (entries q) q.sent else (true, entries q, q.sent))
unfolding drain_queue result
drain_queue_lem answer q o = ground (arith, drain_loop_lem answer (entries q) q o refl)
