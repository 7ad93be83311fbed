-- ===== src/Exporter/Scaler/Idle.antt =====
-- What becomes of the workers while the queue stays idle.
use metrics_governor.Prelude.{
  ℕ, zero, suc, ◌+◌, ◌*◌, ◌^◌, ◌≤◌, ◌<◌, ◌≡◌, ◌⊎◌, inl, inr, sym, ap, subst, ◌∙◌, arith,
}
use metrics_governor.Exporter.Scaler.{ScalerConfig, WorkerScaler, scales_up, idle_in, decide}

-- `n` pairs of decisions on a queue of the given depth, the second of each pair the idle time after the
-- first, and the next pair a second later.
unfoldable pub idle_pairs : ℕ → WorkerScaler → ℕ → ℕ → WorkerScaler
idle_pairs zero ws depth now = ws
idle_pairs (suc n) ws depth now =
    let later = now + ws.config.sustained_idle_secs in
    idle_pairs n (decide (decide ws depth now).0 depth later).0 depth (later + 1)

-- At the minimum, or with the idle time not yet running.
abbrev IsSettling : WorkerScaler → Type 0
IsSettling ws =
    (ws.config.min_workers ≤ ws.current_count)
    × (ws.current_count < 2 ^ 31)
    × ((ws.idle_start ≡ 0) ⊎ (ws.current_count ≡ ws.config.min_workers))

abbrev IsIdle : WorkerScaler → ℕ → Type 0
IsIdle ws depth = (depth ≤ ws.config.high_water_mark) × (depth < ws.config.low_water_mark)

idle_decide :
    (ws : WorkerScaler) (depth now : ℕ)
    → IsIdle ws depth
    → (decide ws depth now).0 ≡ (idle_in ws now).0
unfolding decide scales_up
idle_decide ws depth now i = ground arith

mul-le : (a m : ℕ) → 0 < m → a ≤ a * m
mul-le a zero h = absurd (omega arith)
mul-le a (suc m) h = omega arith

-- The result of a pair.
abbrev IsHalved : WorkerScaler → ℕ → WorkerScaler → Type 0
IsHalved ws m ws' =
    (ws'.config ≡ ws.config) × IsSettling ws' × (ws'.current_count ≤ ws.config.min_workers * m)

starts_timer :
    (ws : WorkerScaler) (now : ℕ)
    → ws.idle_start ≡ 0
    → (idle_in ws now).0 ≡ record ws { idle_start = now }
unfolding idle_in
starts_timer ws now z = ground arith

halves :
    (ws : WorkerScaler) (now m : ℕ)
    → 0 < now
    → 0 < m
    → ws.config.min_workers ≤ ws.current_count
    → ws.current_count < 2 ^ 31
    → ws.current_count ≤ ws.config.min_workers * (2 * m)
    → IsHalved ws m
        (idle_in (record ws { idle_start = now }) (now + ws.config.sustained_idle_secs)).0
unfolding idle_in
halves ws now m h p a b c =
    let d : ws.config.min_workers ≤ ws.config.min_workers * m =
      omega (arith, mul-le ws.config.min_workers m p) in
    let e : ws.config.min_workers * (2 * m) ≡ 2 * (ws.config.min_workers * m) = omega arith in
    ground arith

stays :
    (ws : WorkerScaler) (now : ℕ)
    → ws.current_count ≡ ws.config.min_workers
    → ((idle_in ws now).0.config ≡ ws.config)
      × ((idle_in ws now).0.current_count ≡ ws.config.min_workers)
unfolding idle_in
stays ws now e = ground arith

at_min :
    (ws ws' : WorkerScaler) (m : ℕ)
    → ws.current_count ≡ ws.config.min_workers
    → 0 < m
    → ws.current_count < 2 ^ 31
    → ws'.config ≡ ws.config
    → ws'.current_count ≡ ws.config.min_workers
    → IsHalved ws m ws'
at_min ws ws' m e p b f g =
    let q = ap (λ (cfg : ScalerConfig). cfg.min_workers) f in
    (
      f,
      (omega (arith, q, g), omega (arith, e, g, b), inr (g ∙ sym q)),
      omega (arith, g, mul-le ws.config.min_workers m p),
    )

pair_halves :
    (ws : WorkerScaler) (depth now m : ℕ)
    → 0 < now
    → IsIdle ws depth
    → IsSettling ws
    → ws.current_count ≤ ws.config.min_workers * (2 * m)
    → 0 < m
    → (let ws' = (decide (decide ws depth now).0 depth (now + ws.config.sustained_idle_secs)).0 in
        (ws'.config ≡ ws.config) × IsSettling ws' × (ws'.current_count ≤ ws.config.min_workers * m))
pair_halves ws depth now m h i (a, b, inl z) c p =
    subst (λ ws'. IsHalved ws m (decide ws' depth (now + ws.config.sustained_idle_secs)).0)
      (sym (idle_decide ws depth now i ∙ starts_timer ws now z))
      (subst (IsHalved ws m)
        (sym (
          idle_decide (record ws { idle_start = now }) depth (now + ws.config.sustained_idle_secs)
            i))
        (halves ws now m h p a b c))
pair_halves ws depth now m h i (a, b, inr e) c p =
    let one = idle_decide ws depth now i in
    let ws' = (idle_in ws now).0 in
    let later = now + ws.config.sustained_idle_secs in
    let f = stays ws now e in
    let two =
      idle_decide ws' depth later
        (subst (λ cfg. (depth ≤ cfg.high_water_mark) × (depth < cfg.low_water_mark)) (sym f.0) i) in
    let g = stays ws' later (f.1 ∙ ap (λ (cfg : ScalerConfig). cfg.min_workers) (sym f.0)) in
    subst (λ w. IsHalved ws m (decide w depth later).0) (sym one)
      (subst (IsHalved ws m) (sym two) (
        at_min ws (idle_in ws' later).0 m e p b (g.0 ∙ f.0)
          (g.1 ∙ ap (λ (cfg : ScalerConfig). cfg.min_workers) f.0)))

pow_positive : (n : ℕ) → 0 < 2 ^ n
pow_positive zero = omega arith
pow_positive (suc n) =
    let w : 2 ^ suc n ≡ 2 * 2 ^ n = omega arith in omega (arith, w, pow_positive n)

idle_pairs_settling :
    (n : ℕ) (ws : WorkerScaler) (depth now : ℕ)
    → 0 < now
    → IsIdle ws depth
    → IsSettling ws
    → ws.current_count ≤ ws.config.min_workers * 2 ^ n
    → (idle_pairs n ws depth now).current_count ≡ ws.config.min_workers
unfolding idle_pairs
idle_pairs_settling zero ws depth now h i s c = omega (arith, s.0)
idle_pairs_settling (suc n) ws depth now h i s c =
    let ws' = (decide (decide ws depth now).0 depth (now + ws.config.sustained_idle_secs)).0 in
    let w : 2 ^ suc n ≡ 2 * 2 ^ n = omega arith in
    let c' : ws.current_count ≤ ws.config.min_workers * (2 * 2 ^ n) =
      subst (λ k. ws.current_count ≤ ws.config.min_workers * k) w c in
    let r = pair_halves ws depth now (2 ^ n) h i s c' (pow_positive n) in
    let q = ap (λ (cfg : ScalerConfig). cfg.min_workers) r.0 in
    idle_pairs_settling n ws' depth (now + ws.config.sustained_idle_secs + 1) (omega arith)
      (subst (λ cfg. (depth ≤ cfg.high_water_mark) × (depth < cfg.low_water_mark)) (sym r.0) i) r.1
      (subst (λ k. ws'.current_count ≤ k * 2 ^ n) (sym q) r.2)
    ∙ q

-- A scaler whose idle time is not running, and whose count is between its minimum and the minimum times 2^n
-- and below 2^31, counts only the minimum after n pairs of decisions at one depth of the queue that is below
-- the low and not above the high mark: the two decisions of a pair are the idle time apart, a pair begins one
-- second after the one before it, and the first second is above 0.
pub idle_pairs_reach_min :
    (n : ℕ) (ws : WorkerScaler) (depth now : ℕ)
    → 0 < now
    → depth ≤ ws.config.high_water_mark
    → depth < ws.config.low_water_mark
    → ws.idle_start ≡ 0
    → ws.config.min_workers ≤ ws.current_count
    → ws.current_count < 2 ^ 31
    → ws.current_count ≤ ws.config.min_workers * 2 ^ n
    → (idle_pairs n ws depth now).current_count ≡ ws.config.min_workers
idle_pairs_reach_min n ws depth now h hi lo z a b c =
    idle_pairs_settling n ws depth now h (hi, lo) (a, b, inl z) c
