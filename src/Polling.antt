-- ===== src/Polling.antt =====
-- internal/application/polling/strategy.go: the two strategies that choose the next polling
-- interval, and the loop of the controller on the results of its task. Durations are integers of
-- nanoseconds; what is done with float64 is a parameter.
use multi_network_interface.Prelude.{
  ℕ, suc, ◌+◌, Bool, true, false, List, [], ◌∷◌, leb, if◌then◌else◌,
}
use multi_network_interface.Prelude.Int.{ℤ, ltb_ℤ}

-- float64 in `NextInterval`.
pub record Float (F : Type 0) : Type 0 where
  pub two : F
  pub one_and_half : F
  pub is_above_one : F → Bool
  pub of_duration : ℤ → F
  pub times : F → F → F
  pub pow : F → ℕ → F
  pub to_duration : F → ℤ

-- `ExponentialBackoffStrategy`.
pub record Backoff (F : Type 0) : Type 0 where
  pub base_interval : ℤ
  pub max_interval : ℤ
  pub multiplier : F
  pub current_backoff : ℕ

-- The smaller of an interval and a limit.
abbrev pub capped : ℤ → ℤ → ℤ
capped limit d = if ltb_ℤ limit d then limit else d

module _ {F : Type 0} (float : Float F) where
  -- `NewExponentialBackoffStrategy`.
  unfoldable pub new_backoff : ℤ → ℤ → F → Backoff F
  new_backoff base limit multiplier = record {
    base_interval = base;
    max_interval = limit;
    multiplier = if float.is_above_one multiplier then multiplier else float.two;
    current_backoff = 0;
  }

  -- `NextInterval` of the backoff.
  unfoldable pub backoff_next : Backoff F → Bool → ℤ × Backoff F
  backoff_next s true = (s.base_interval, record s { current_backoff = 0 })
  backoff_next s false = (
    capped s.max_interval (
        float.to_duration (
          float.times (float.of_duration s.base_interval)
            (float.pow s.multiplier s.current_backoff))),
    record s { current_backoff = suc s.current_backoff },
  )

  -- `Reset` of the backoff.
  unfoldable pub backoff_reset : Backoff F → Backoff F
  backoff_reset s = record s { current_backoff = 0 }

-- `AdaptiveStrategy`.
pub record Adaptive : Type 0 where
  pub min_interval : ℤ
  pub max_interval : ℤ
  pub idle_interval : ℤ
  pub work_detected_count : ℕ
  pub no_work_count : ℕ
  pub threshold_for_slow : ℕ
  pub threshold_for_fast : ℕ
  pub current_interval : ℤ

-- `NewAdaptiveStrategy`.
unfoldable pub new_adaptive : ℤ → ℤ → ℤ → Adaptive
new_adaptive low high idle = record {
  min_interval = low;
  max_interval = high;
  idle_interval = idle;
  work_detected_count = 0;
  no_work_count = 0;
  threshold_for_slow = 5;
  threshold_for_fast = 2;
  current_interval = low;
}

-- `Reset` of the adaptive strategy.
unfoldable pub adaptive_reset : Adaptive → Adaptive
adaptive_reset s = record s {
  work_detected_count = 0;
  no_work_count = 0;
  current_interval = s.min_interval;
}

module _ {F : Type 0} (float : Float F) where
  grown : Adaptive → ℤ
  grown s =
      if ltb_ℤ s.current_interval s.max_interval
      then capped s.max_interval (
          float.to_duration (float.times (float.of_duration s.current_interval) float.one_and_half))
      else s.current_interval

  slowed : Adaptive → ℤ
  unfolding grown
  slowed s =
      if leb s.threshold_for_slow s.no_work_count
      then if leb (s.threshold_for_slow + s.threshold_for_slow + s.threshold_for_slow)
          s.no_work_count
        then s.idle_interval
        else grown s
      else s.current_interval

  after_work : Adaptive → Adaptive
  after_work s = record s {
    current_interval =
        if leb s.threshold_for_fast s.work_detected_count
        then s.min_interval
        else s.current_interval;
  }

  after_no_work : Adaptive → Adaptive
  unfolding slowed
  after_no_work s = record s { current_interval = slowed s }

  -- `NextInterval` of the adaptive strategy; the interval is the current one of the result.
  unfoldable pub adaptive_next : Adaptive → Bool → Adaptive
  unfolding after_work after_no_work
  adaptive_next s true =
      after_work (record s { work_detected_count = suc s.work_detected_count; no_work_count = 0 })
  adaptive_next s false =
      after_no_work (record s { no_work_count = suc s.no_work_count; work_detected_count = 0 })

-- The rounds of `PollingController.Start`: a strategy is asked once for each result of the task. The
-- state after the last round.
unfoldable pub rounds {ℓ} : {S : Type ℓ} → (S → Bool → S) → S → List Bool → S
rounds next s [] = s
rounds next s (r ∷ rs) = rounds next (next s r) rs
