-- ===== src/Agent/Run/Laws.antt =====
-- cmd/agent/main.go: the agent as a service, over any number of ticks, and how `Run` ends.
use multi_network_interface.Prelude.{
  ℕ, suc, ◌+◌, ◌*◌, ◌≡◌, ◌≤◌, refl, ap, ◌∙◌, ◌↔◌, true, false, length, List, arith,
}
use multi_network_interface.Prelude.Int.{ℤ, pos, ◌≤ℤ◌, leb_ℤ}
use multi_network_interface.Prelude.Text.{Text, text, eqb}
use multi_network_interface.Errors.{is_nil, plain, ok}
use multi_network_interface.Entities.Interface.{NetworkInterface}
use multi_network_interface.Configure.{OsType}
use multi_network_interface.Polling.{Float, Backoff, capped, new_backoff, backoff_next}
use multi_network_interface.Config.{Config, Parsers, load}
use multi_network_interface.Config.Laws.{load-IsUsable}
use multi_network_interface.Health.{
  HealthService, answer, update_db_health, build_health_response, serve_http,
}
use multi_network_interface.Health.Laws.{serve_http-code}
use multi_network_interface.Configure.Execute.{Output}
use multi_network_interface.Agent.{
  Application, Setup, resolve_node_name, process_network_configurations,
}
use multi_network_interface.Agent.Run.{
  Strategy, fixed, exponential, Ending, returned, panicked, next_interval, strategy_of, task,
  reset_or_panic, ticks, start, run_on, run,
}
use multi_network_interface.Agent.Laws.{Reports, cycle-Reports}

abbrev pub canceled : Ending
canceled = returned (plain (text "context canceled"))

-- All that the health service has counted.
abbrev pub counted_by : HealthService → ℕ
counted_by h = h.processed_vms + h.failed_configs

module _ {W F : Type 0} (setup : Setup W F) (node : Text) (os : OsType)
    (jobs : List NetworkInterface)
    (named : resolve_node_name setup.services.getenv setup.hostname ≡ ok node)
    (detected : setup.services.detect_os ≡ ok os)
    (listed : setup.services.all_node_interfaces node ≡ ok jobs) where
  -- If the node has a name, the system's type is known and the interfaces can be read, a cycle
  -- processes or fails each interface, whatever the deletion of orphans does: it returns nil exactly
  -- if none failed, or some was processed and the policy allows that the others failed; the health
  -- service counts each interface, and its endpoint then answers 503 exactly if the cycle did not
  -- return nil.
  pub task-Reports :
      (s : Application W) (now : ℤ)
      → (out : Output) × (out.processed_count + out.failed_count ≡ length jobs)
        × Reports setup s out (task setup s)
        × ((serve_http now (task setup s).1.health (text "GET")
              ≡ answer 503 (build_health_response now (task setup s).1.health))
            ↔ (is_nil (task setup s).0 ≡ false))
  unfolding task update_db_health
  task-Reports s now =
      let (out, sum, (accepted, counted)) =
        cycle-Reports setup s node os jobs named detected listed in
      (out, sum, (accepted, counted), serve_http-code now (task setup s).1.health)

module _ {W F : Type 0} (setup : Setup W F) (exp : Float F) (node : Text) (os : OsType)
    (jobs : List NetworkInterface)
    (named : resolve_node_name setup.services.getenv setup.hostname ≡ ok node)
    (detected : setup.services.detect_os ≡ ok os)
    (listed : setup.services.all_node_interfaces node ≡ ok jobs) where
  -- The cycles that a run of the loop made.
  abbrev Counts : ℕ → Application W → Ending × Application W → Type 0
  Counts n s r =
      (m : ℕ) × (m ≤ n)
      × (r.0 ≡ canceled → m ≡ n)
      × (counted_by r.1.health ≡ counted_by s.health + m * length jobs)

-- Every interval that the strategy can choose is positive.
abbrev pub IsPaced : {F : Type 0} → Float F → Strategy F → Type 0
IsPaced exp (fixed d) = pos 1 ≤ℤ d
IsPaced exp (exponential b) =
    (pos 1 ≤ℤ b.base_interval)
    × (pos 1 ≤ℤ b.max_interval)
    × ((k : ℕ)
        → pos 1
          ≤ℤ exp.to_duration (exp.times (exp.of_duration b.base_interval) (exp.pow b.multiplier k)))

capped_low : (limit d : ℤ) → limit ≤ℤ pos 0 → leb_ℤ (capped limit d) (pos 0) ≡ true
capped_low limit d h = ground arith

module _ {F : Type 0} (exp : Float F) where
  module _ {W : Type 0} (setup : Setup W F) where
    start-panics :
        (n : ℕ) (b : Backoff F) (s : Application W)
        → pos 1 ≤ℤ b.base_interval
        → b.max_interval ≤ℤ pos 0
        → is_nil (process_network_configurations setup s).0 ≡ false
        → start setup exp (suc n) (exponential b) s ≡ (panicked, (task setup s).1)
    unfolding start ticks reset_or_panic next_interval backoff_next task
    start-panics n b s base low failed =
        let first : leb_ℤ b.base_interval (pos 0) ≡ false = ground arith in
        let capped =
          capped_low b.max_interval
            (exp.to_duration (exp.times (exp.of_duration b.base_interval) (exp.pow b.multiplier 0)))
            low in
        rw (first, failed, capped) refl

    run-service :
        (n : ℕ) (c : Config F) (s : Application W) (os : OsType)
        → setup.services.detect_os ≡ ok os
        → eqb c.agent.run_mode (text "job") ≡ false
        → run setup exp n c s ≡ start setup exp n (strategy_of exp c) s
    unfolding run run_on
    run-service n c s os detected service =
        ap (λ r. run_on setup exp n c s r) detected ∙ rw service refl

    abbrev pub backoff_of : Config F → Backoff F
    backoff_of c =
        new_backoff exp c.agent.poll_interval c.agent.backoff.max_interval
          c.agent.backoff.multiplier

    -- What the backoff has to be like for its intervals to be positive.
    abbrev pub Grows : Config F → Type 0
    Grows c =
        (pos 1 ≤ℤ c.agent.backoff.max_interval)
        × ((k : ℕ)
            → pos 1
              ≤ℤ exp.to_duration (
                  exp.times (exp.of_duration c.agent.poll_interval)
                    (exp.pow (backoff_of c).multiplier k)))

    strategy_of-on :
        (c : Config F)
        → c.agent.backoff.enabled ≡ true
        → strategy_of exp c ≡ exponential (backoff_of c)
    unfolding strategy_of
    strategy_of-on c on = rw on refl

    -- `Load` also accepts a maximal interval of the backoff that is zero or negative: with it, the
    -- service panics after the first cycle that fails.
    pub run-panics :
        (parsers : Parsers F) (c : Config F) (n : ℕ) (s : Application W) (os : OsType)
        → load setup.services.getenv parsers ≡ ok c
        → eqb c.agent.run_mode (text "job") ≡ false
        → c.agent.backoff.enabled ≡ true
        → c.agent.backoff.max_interval ≤ℤ pos 0
        → setup.services.detect_os ≡ ok os
        → is_nil (process_network_configurations setup s).0 ≡ false
        → run setup exp (suc n) c s ≡ (panicked, (task setup s).1)
    unfolding new_backoff
    run-panics parsers c n s os loaded service on low detected failed =
        let path = run-service (suc n) c s os detected service in
        let (base, _, _, _) = load-IsUsable setup.services.getenv parsers c loaded in
        let b = backoff_of c in
        path
        ∙ (ap (λ strategy. start setup exp (suc n) strategy s) (strategy_of-on c on)
            ∙ start-panics n b s base low failed)
