-- ===== src/Prw/RetryQueue/Tests.antt =====
-- The retry queue at concrete entries: a request with one empty series, a byte that is no tag, and an unknown field whose
-- varint is not complete.
use metrics_governor.Prelude.{ℕ, ◌≡◌, refl, true, false, List, [], ◌∷◌, some}
use metrics_governor.Queue.BatchQueue.{drop_oldest}
use metrics_governor.Prw.Proto.Wire.{consume_tag, consume_varint, consume_bytes, varint_from}
use metrics_governor.Prw.Proto.Loop.{
  ok, unmarshal, rounds, round, and_then, on_bytes, skipped, skip_field,
}
use metrics_governor.Prw.Proto.Messages.{WriteRequest}
use metrics_governor.Prw.Proto.Messages.Request.{
  unmarshal_request, switch_request, unmarshal_series, empty_series, empty_request,
}
use metrics_governor.Prw.RetryQueue.{RetryQueue, run_rounds, drain_queue, set_exporter, taken}
use metrics_governor.Prw.RetryQueue.Laws.{
  view_of, replicate, result, before_panic, accepted, is_panic, run_rounds_resends, drain_queue_lem,
}

abbrev bytes : List ℕ
bytes = 10 ∷ 0 ∷ []

abbrev no_tag : List ℕ
no_tag = 128 ∷ []

abbrev cut : List ℕ
cut = 16 ∷ 128 ∷ []

abbrev request : WriteRequest
request = record empty_request { timeseries = empty_series ∷ [] }

abbrev holding : List (List ℕ) → RetryQueue
holding ch = record {
  send_queue = record {
    fq = record {
      ch = ch;
      capacity = 8;
      max_size = 4;
      max_bytes = 20;
      inmemory_bytes = 7;
      active_count = 4;
      total_bytes = 7;
      closed = false;
    };
    full_behavior = drop_oldest;
    closed = false;
  };
  has_exporter = true;
  sent = [];
}

unmarshal_request-bytes : unmarshal_request bytes ≡ ok request
unfolding unmarshal_request unmarshal rounds round and_then consume_tag consume_varint consume_bytes
    varint_from switch_request on_bytes unmarshal_series
unmarshal_request-bytes = refl

run_rounds_resends_example :
    view_of (run_rounds (holding (bytes ∷ [])) (replicate 3 true))
    ≡ some (bytes ∷ [], request ∷ request ∷ request ∷ [])
unfolding replicate
run_rounds_resends_example =
    run_rounds_resends 3 (holding (bytes ∷ [])) bytes request
      (record { open_queue = refl; open_disk = refl }) refl refl unmarshal_request-bytes

-- The entry behind the one that panics is left.
drain_queue_lem_example :
    result (drain_queue 5 (λ r. true) (holding (bytes ∷ no_tag ∷ cut ∷ bytes ∷ [])))
    ≡ some (false, bytes ∷ [], request ∷ [])
unfolding before_panic accepted is_panic taken unmarshal_request unmarshal rounds round and_then
    consume_tag consume_varint consume_bytes varint_from switch_request on_bytes unmarshal_series
    skipped skip_field
drain_queue_lem_example =
    drain_queue_lem (λ r. true) (holding (bytes ∷ no_tag ∷ cut ∷ bytes ∷ []))
      (record { open_queue = refl; open_disk = refl })

drain_without_exporter :
    result (drain_queue 2 (λ r. true) (set_exporter (holding (bytes ∷ [])) false))
    ≡ some (true, bytes ∷ [], [])
unfolding result drain_queue set_exporter
drain_without_exporter = refl
