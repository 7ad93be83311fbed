-- ===== src/Prw/RetryQueue.antt =====
-- `Queue` of internal/prw/queue.go: the requests of remote write that wait for a retry. An entry is the bytes of a
-- marshalled request. The answers of the exporter to the attempts are parameters. `has_exporter` is
-- `exporter != nil`, and `sent` logs what the exporter has accepted. Errors are logged only, and left out. No
-- request is `stuck`, as Prw/Proto proves; where the clauses below have to name it, it is treated as a panic.
pub mod Laws
mod Tests
use metrics_governor.Prelude.{
  ℕ, zero, suc, ◌*◌, Bool, true, false, List, [], ◌∷◌, ◌++◌, Option, none, some, ltb, length,
  if◌then◌else◌,
}
use metrics_governor.Queue.FastQueue.{Status, ok as status_ok, queue_closed, queue_full, spills}
use metrics_governor.Queue.SendQueue.{SendQueue, peek_entry, pop_entry, remove}
use metrics_governor.Prw.Proto.Loop.{Decoded, ok, err, panics, stuck}
use metrics_governor.Prw.Proto.Messages.{WriteRequest}
use metrics_governor.Prw.Proto.Messages.Request.{unmarshal_request}

pub record RetryQueue : Type 0 where
  pub send_queue : SendQueue (List ℕ)
  pub has_exporter : Bool
  pub sent : List WriteRequest

-- `SetExporter`, with whether the new exporter is nil.
unfoldable pub set_exporter : RetryQueue → Bool → RetryQueue
set_exporter q has_exporter = record q { has_exporter = has_exporter }

-- `time.Duration` in nanoseconds.
pub min_duration : ℕ → ℕ → ℕ
min_duration a b = if ltb a b then a else b

-- The delay of the retry loop after a round, with the result of `processQueue`.
pub next_delay : ℕ → ℕ → ℕ → Bool → ℕ
unfolding min_duration
next_delay retry_interval max_retry_delay delay true = retry_interval
next_delay retry_interval max_retry_delay delay false = min_duration (delay * 2) max_retry_delay

-- How a round ends: with the result of `processQueue`, or by a panic, which ends the program.
pub data Round : Type 0 where
  done : Bool → Round
  crashes : Round

unfoldable pub removed : SendQueue (List ℕ) → SendQueue (List ℕ)
removed s = (remove s).0

-- The rest of `processQueue` with the request at hand, and the answer of the exporter.
unfoldable pub exported : Bool → RetryQueue → SendQueue (List ℕ) → WriteRequest → RetryQueue × Round
exported answer q s req =
    if q.has_exporter
    then if answer
      then (record q { send_queue = removed s; sent = q.sent ++ req ∷ [] }, done true)
      else (record q { send_queue = s }, done false)
    else (record q { send_queue = s }, done false)

-- The rest of `processQueue` with what the entry unmarshals to.
unfoldable pub attempt :
    Bool → RetryQueue → SendQueue (List ℕ) → Decoded WriteRequest → RetryQueue × Round
attempt answer q s (ok req) = exported answer q s req
attempt answer q s (err e) = (record q { send_queue = removed s }, done false)
attempt answer q s panics = (record q { send_queue = s }, crashes)
attempt answer q s stuck = (record q { send_queue = s }, crashes)

unfoldable pub peeked :
    Bool → RetryQueue → SendQueue (List ℕ) → Option (List ℕ) → Status → RetryQueue × Round
peeked answer q s (some d) status = attempt answer q s (unmarshal_request d)
peeked answer q s none status_ok = (record q { send_queue = s }, done true)
peeked answer q s none queue_closed = (record q { send_queue = s }, done false)
peeked answer q s none queue_full = (record q { send_queue = s }, done false)
peeked answer q s none spills = (record q { send_queue = s }, done false)

unfoldable pub process_queue : Bool → RetryQueue → RetryQueue × Round
process_queue answer q = let r = peek_entry q.send_queue in peeked answer q r.0 r.1 r.2

unfoldable pub unless_crashed : Round → Option RetryQueue → Option RetryQueue
unless_crashed (done b) rest = rest
unless_crashed crashes rest = none

-- The rounds of the retry loop, with the answers of the exporter; `none` where one of them panics.
unfoldable pub run_rounds : RetryQueue → List Bool → Option RetryQueue
run_rounds q [] = some q
run_rounds q (answer ∷ answers) =
    let r = process_queue answer q in unless_crashed r.1 (run_rounds r.0 answers)

-- How a drain ends. `out_of_fuel` is no result of the source.
pub data Drained : Type 0 where
  ends crashed : RetryQueue → Drained
  out_of_fuel : Drained

-- What the exporter accepts of what an entry unmarshals to.
unfoldable pub taken : (WriteRequest → Bool) → Decoded WriteRequest → List WriteRequest
taken answer (ok req) = if answer req then req ∷ [] else []
taken answer (err e) = []
taken answer panics = []
taken answer stuck = []

unfoldable pub crash_or : Decoded WriteRequest → RetryQueue → Drained → Drained
crash_or (ok req) q rest = rest
crash_or (err e) q rest = rest
crash_or panics q rest = crashed q
crash_or stuck q rest = crashed q

-- The loop of `drainQueue`, with the answers of the exporter by request.
unfoldable pub drain_loop : ℕ → (WriteRequest → Bool) → RetryQueue → Drained
drain_loop zero answer q = out_of_fuel
drain_loop (suc fuel) answer q =
    let r = pop_entry length q.send_queue in
    elim r.1 [
      | none ↦ ends (record q { send_queue = r.0 })
      | some d ↦
          let q' = record q {
            send_queue = r.0;
            sent = q.sent ++ taken answer (unmarshal_request d);
          } in
          crash_or (unmarshal_request d) q' (drain_loop fuel answer q')
    ]

unfoldable pub drain_queue : ℕ → (WriteRequest → Bool) → RetryQueue → Drained
drain_queue fuel answer q = if q.has_exporter then drain_loop fuel answer q else ends q
