-- ===== src/Agent/Run.antt =====
-- cmd/agent/main.go: `Run`, as a job that ends after one cycle, or as a service that runs a cycle at
-- each tick until a signal cancels its context. A ticker with an interval that is not positive
-- panics, in `NewTicker` and in `Reset`.
pub mod Laws
pub mod Cleanup
use multi_network_interface.Prelude.{ℕ, zero, suc, Bool, true, false, List, [], ◌∷◌, if◌then◌else◌}
use multi_network_interface.Prelude.Int.{ℤ, pos, leb_ℤ}
use multi_network_interface.Prelude.Text.{Text, text, eqb}
use multi_network_interface.Errors.{GoError, nil, is_nil, plain, wrapped, Result, ok, err}
use multi_network_interface.Configure.{OsType}
use multi_network_interface.Delete.{Deleted}
use multi_network_interface.Delete.Orphans.{execute_delete}
use multi_network_interface.Health.{update_db_health}
use multi_network_interface.Polling.{Float, Backoff, new_backoff, backoff_next}
use multi_network_interface.Config.{Config}
use multi_network_interface.Agent.{Application, Setup, parts_of, process_network_configurations}

-- The strategy that `Run` makes: with backoff, or `fixedIntervalStrategy`.
pub data Strategy (F : Type 0) : Type 0 where
  exponential : Backoff F → Strategy F
  fixed : ℤ → Strategy F

-- How `Run` ends.
pub data Ending : Type 0 where
  returned : GoError → Ending
  panicked : Ending

module _ {F : Type 0} (exp : Float F) where
  abbrev pub as_exponential : ℤ × Backoff F → ℤ × Strategy F
  as_exponential (d, b) = (d, exponential b)

  -- `NextInterval` of the strategy.
  unfoldable pub next_interval : Strategy F → Bool → ℤ × Strategy F
  next_interval (exponential b) success = as_exponential (backoff_next exp b success)
  next_interval (fixed d) success = (d, fixed d)

  unfoldable pub strategy_of : Config F → Strategy F
  strategy_of c =
      if c.agent.backoff.enabled
      then exponential (
          new_backoff exp c.agent.poll_interval c.agent.backoff.max_interval
            c.agent.backoff.multiplier)
      else fixed c.agent.poll_interval

module _ {W F : Type 0} (setup : Setup W F) where
  -- The task of the polling controller.
  unfoldable pub task : Application W → GoError × Application W
  task s =
      let (e, after) = process_network_configurations setup s in
      (e, record after { health = update_db_health after.health (is_nil e) e })

  abbrev host_text : Result Text → Text
  host_text (ok h) = h
  host_text (err e) = []

  cleaned_up : Application W → Result Deleted × W → GoError × Application W
  cleaned_up s (ok out, w) = (nil, record s { world = w })
  cleaned_up s (err e, w) = (e, record s { world = w })

  -- RUN_MODE=job.
  unfoldable pub run_job : Application W → GoError × Application W
  unfolding cleaned_up
  run_job s =
      if eqb (setup.services.getenv (text "AGENT_ACTION")) (text "cleanup")
      then cleaned_up s (
          execute_delete (parts_of setup)
            (record { node_name = host_text setup.hostname; full_cleanup = false }) s.world)
      else process_network_configurations setup s

  module _ (exp : Float F) where
    -- `Reset` of the ticker panics, or the loop goes on.
    unfoldable pub reset_or_panic :
        ℤ → Ending × Application W → Application W → Ending × Application W
    reset_or_panic d rest s = if leb_ℤ d (pos 0) then (panicked, s) else rest

    -- The loop of `PollingController.Start`, for a context that is cancelled after some ticks.
    unfoldable pub ticks : ℕ → Strategy F → Application W → Ending × Application W
    unfolding task reset_or_panic
    ticks zero strategy s = (returned (plain (text "context canceled")), s)
    ticks (suc n) strategy s =
        let done = task s in
        let next = next_interval exp strategy (is_nil done.0) in
        let rest = ticks n next.1 done.1 in reset_or_panic next.0 rest done.1

    unfoldable pub start : ℕ → Strategy F → Application W → Ending × Application W
    unfolding ticks reset_or_panic
    start n strategy s =
        let first = next_interval exp strategy true in
        let rest = ticks n first.1 s in reset_or_panic first.0 rest s

    as_returned : GoError × Application W → Ending × Application W
    as_returned (e, s) = (returned e, s)

    unfoldable pub run_on : ℕ → Config F → Application W → Result OsType → Ending × Application W
    unfolding start as_returned
    run_on n c s (err e) = (returned (wrapped (text "failed to detect OS type") e), s)
    run_on n c s (ok os) =
        if eqb c.agent.run_mode (text "job")
        then as_returned (run_job s)
        else start n (strategy_of exp c) s

    -- `Run`, for a context that is cancelled after `n` ticks.
    unfoldable pub run : ℕ → Config F → Application W → Ending × Application W
    unfolding run_on
    run n c s = run_on n c s setup.services.detect_os
