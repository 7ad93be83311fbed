-- ===== src/Exporter/CircuitBreaker/Race.antt =====
-- `AllowRequest` of internal/exporter/queued.go as the atomic operations that it is made of, run by
-- goroutines that interleave within one second of the clock.
use metrics_governor.Prelude.{
  ◌<◌, ℕ, ◌+◌, ◌≤◌, ◌≡◌, List, [], ◌∷◌, Bool, true, false, arith, ◌==◌, if◌then◌else◌,
}
use metrics_governor.Exporter.CircuitBreaker.{
  CircuitBreaker, CircuitState, closed, opened, half_open, allow_request, timed_out,
}
use metrics_governor.Exporter.CircuitBreaker.Laws.{IsValid}

-- Where a goroutine stands in `AllowRequest`.
pub data Pc : Type 0 where
  start : Pc
  loaded : CircuitState → Pc
  elapsed won probing : Pc
  returned : Bool → Pc

is_opened : CircuitState → Bool
is_opened opened = true
is_opened _ = false

-- The next atomic operation of one goroutine.
pub advance : ℕ → CircuitBreaker → Pc → CircuitBreaker × Pc
unfolding is_opened
advance now cb start = (cb, loaded cb.state)
advance now cb (loaded closed) = (cb, returned true)
advance now cb (loaded opened) = (cb, if timed_out cb now then elapsed else returned false)
advance now cb (loaded half_open) =
    if cb.half_open_probe == 0
    then (record cb { half_open_probe = 1 }, returned true)
    else (cb, returned false)
advance now cb elapsed =
    if is_opened cb.state then (record cb { state = half_open }, won) else (cb, returned false)
advance now cb won = (record cb { half_open_probe = 1 }, probing)
advance now cb probing = (record cb { last_state_change = now }, returned true)
advance now cb (returned b) = (cb, returned b)

pub record System : Type 0 where
  pub breaker : CircuitBreaker
  pub first : Pc
  pub second : Pc

-- `true` runs the first goroutine, `false` the second.
pub step : ℕ → System → Bool → System
step now s true =
    let (cb, pc) = advance now s.breaker s.first in record s { breaker = cb; first = pc }
step now s false =
    let (cb, pc) = advance now s.breaker s.second in record s { breaker = cb; second = pc }

pub run : ℕ → System → List Bool → System
unfolding step
run now s [] = s
run now s (b ∷ bs) = run now (step now s b) bs

abbrev pub both_start : CircuitBreaker → System
both_start cb = record { breaker = cb; first = start; second = start }

abbrev pub alone : List Bool
alone = true ∷ true ∷ true ∷ true ∷ true ∷ []

-- A goroutine that runs alone does what `allow_request` does: five atomic operations at most lead to
-- the same breaker and the same answer.
pub run-alone :
    (cb : CircuitBreaker) (now : ℕ)
    → let s = run now (both_start cb) alone in
      (s.breaker ≡ (allow_request cb now).0) × (s.first ≡ returned (allow_request cb now).1)
unfolding run advance allow_request
run-alone cb now = ground arith

-- The second goroutine runs between the swap to half-open and the store of the probe flag.
abbrev pub overlap : List Bool
overlap = true ∷ true ∷ true ∷ false ∷ false ∷ true ∷ true ∷ []

-- On every open circuit that satisfies the invariant and whose timeout has passed there is an
-- interleaving of two requests that lets both through.
pub run-overlap_two_probes :
    (cb : CircuitBreaker) (now : ℕ)
    → IsValid cb
    → cb.state ≡ opened
    → cb.last_failure + cb.reset_timeout ≤ now
    → let s = run now (both_start cb) overlap in
      (s.first ≡ returned true) × (s.second ≡ returned true) × (s.breaker.state ≡ half_open)
unfolding run advance
run-overlap_two_probes cb now v h k = ground arith

-- Where a goroutine can be that started in the half-open state, with the probe flag as it is now.
abbrev Fits : ℕ → Pc → Type 0
Fits probe start = Unit
Fits probe (loaded half_open) = Unit
Fits probe (loaded _) = ⊥
Fits probe (returned true) = 0 < probe
Fits probe (returned false) = Unit
Fits probe _ = ⊥

record Exclusive (cb : CircuitBreaker) (p : Pc) (q : Pc) : Type 0 where
  half : cb.state ≡ half_open
  fits_first : Fits cb.half_open_probe p
  fits_second : Fits cb.half_open_probe q
  apart : p ≡ returned true → q ≡ returned true → ⊥

advance-Exclusive :
    (now : ℕ) (cb : CircuitBreaker) (p q : Pc)
    → Exclusive cb p q
    → Exclusive (advance now cb p).0 (advance now cb p).1 q
unfolding advance
advance-Exclusive now cb start q h = ground arith
advance-Exclusive now cb (loaded s) q h = ground arith
advance-Exclusive now cb elapsed q h = ground arith
advance-Exclusive now cb won q h = ground arith
advance-Exclusive now cb probing q h = ground arith
advance-Exclusive now cb (returned b) q h = ground arith

swap_Exclusive : (cb : CircuitBreaker) (p q : Pc) → Exclusive cb p q → Exclusive cb q p
swap_Exclusive cb p q h = record {
  half = h.half;
  fits_first = h.fits_second;
  fits_second = h.fits_first;
  apart = λ e f. h.apart f e;
}

run-Exclusive :
    (now : ℕ) (s : System) (bs : List Bool)
    → Exclusive s.breaker s.first s.second
    → let t = run now s bs in Exclusive t.breaker t.first t.second
unfolding run
run-Exclusive now s [] h = h
run-Exclusive now s (true ∷ bs) h =
    run-Exclusive now (step now s true) bs (advance-Exclusive now s.breaker s.first s.second h)
run-Exclusive now s (false ∷ bs) h = run-Exclusive now (step now s false) bs (
    swap_Exclusive _ _ _
      (advance-Exclusive now s.breaker s.second s.first (swap_Exclusive _ _ _ h)))

-- Of two requests that start while the circuit is half-open, no interleaving lets both through.
pub run_half_open_one_probe :
    (cb : CircuitBreaker) (now : ℕ) (bs : List Bool)
    → cb.state ≡ half_open
    → let s = run now (both_start cb) bs in
      ¬ ((s.first ≡ returned true) × (s.second ≡ returned true))
run_half_open_one_probe cb now bs h e =
    (run-Exclusive now (both_start cb) bs
        (record { half = h; fits_first = tt; fits_second = tt; apart = λ x y. cc })).apart
      e.0 e.1
