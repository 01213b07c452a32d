-- ===== src/Controller/Command.antt =====
-- cmd/controller/main.go, with `Start` of internal/controller/service.go and watcher.go: the settings
-- that the controller reads from its environment, and how it runs and ends. `os.Getenv`,
-- `time.ParseDuration` and the clients are parameters. The handlers of the watcher are taken one
-- after another, in the order in which they are called.
use multi_network_interface.Prelude.{ℕ, Option, none, some, List, [], ◌∷◌, ◌++◌, if◌then◌else◌}
use multi_network_interface.Prelude.Int.{ℤ, pos, leb_ℤ, wrap_ℤ, quot_ℤ}
use multi_network_interface.Prelude.Text.{Text, text, eqb, is_empty}
use multi_network_interface.Errors.{GoError, is_nil}
use multi_network_interface.Controller.Objects.{Pod}
use multi_network_interface.Controller.Cluster.{Api, Decoder, Settings, Controller, World}
use multi_network_interface.Controller.Reconcile.{process_all}
use multi_network_interface.Controller.Finish.{process_jobs}
use multi_network_interface.Controller.Watch.{
  Event, handle_cr, handle_cr_delete, handle_pod, run_rounds,
}

-- What `main` keeps of the environment, the interval in nanoseconds.
pub record Command : Type 0 where
  pub namespace : Text
  pub interval : ℤ
  pub mode : Text
  pub settings : Settings

-- How `main` ends: it returns, it exits with code 1 after an error, or it panics.
pub data Exit : Type 0 where
  finished : Exit
  fatal : GoError → Exit
  crashed : Exit

-- What the watcher runs: the pass over all resources and jobs at its start, and its handlers.
pub data Notice : Type 0 where
  initial_pass : Notice
  cr_applied : Event → Notice
  cr_deleted : Event → Notice
  job_updated : Notice
  pod_seen : Pod → Notice

whole_seconds : Option ℤ → Option ℤ
whole_seconds none = none
whole_seconds (some d) = some (quot_ℤ d 1_000_000_000)

ttl_of : Option ℤ → Option ℤ
unfolding whole_seconds
ttl_of d = elim (whole_seconds d) [ none ↦ none | some secs ↦ some (wrap_ℤ 32 secs) ]

delay_of : Option ℤ → ℤ
unfolding whole_seconds
delay_of d = elim (whole_seconds d) [ none ↦ pos 0 | some secs ↦ secs ]

-- The interval is zero where it is no duration, since `main` drops the error.
interval_of : Option ℤ → ℤ
interval_of none = pos 0
interval_of (some d) = d

module _ (environ : Text → Text) where
  -- `getenv`.
  unfoldable pub getenv : Text → Text → Text
  getenv key fallback = if is_empty (environ key) then fallback else environ key

  namespace_of : Text
  unfolding getenv
  namespace_of =
      getenv (text "CONTROLLER_NAMESPACE") (getenv (text "POD_NAMESPACE") (text "multinic-system"))

  module _ (parse_duration : Text → Option ℤ) where
    settings_of : Settings
    unfolding getenv namespace_of ttl_of delay_of
    settings_of = record {
      agent_image = getenv (text "AGENT_IMAGE") (text "multinic-agent:latest");
      image_pull_policy = text "IfNotPresent";
      service_account =
          getenv (text "CONTROLLER_SA_NAME")
            (getenv (text "SERVICE_ACCOUNT") (text "multinic-agent"));
      node_cr_namespace = getenv (text "NODE_CR_NAMESPACE") namespace_of;
      job_ttl_seconds =
          ttl_of (parse_duration (getenv (text "CONTROLLER_JOB_TTL") (text "600") ++ text "s"));
      job_delete_delay_seconds =
          delay_of
            (parse_duration (getenv (text "CONTROLLER_JOB_DELETE_DELAY") (text "0") ++ text "s"));
    }

    -- The part of `main` before the controller runs.
    unfoldable pub read_command : Command
    unfolding getenv namespace_of settings_of interval_of
    read_command = record {
      namespace = namespace_of;
      interval = interval_of (parse_duration (getenv (text "POLL_INTERVAL") (text "15s")));
      mode = getenv (text "CONTROLLER_MODE") (text "watch");
      settings = settings_of;
    }

fatal_if : GoError → Exit
fatal_if e = if is_nil e then finished else fatal e

module _ {W : Type 0} (c : Controller W) where
  -- One call of a handler.
  unfoldable pub handle : Text → Notice → World W → World W
  handle namespace initial_pass w = (process_jobs c namespace (process_all c namespace w).1).1
  handle namespace (cr_applied e) w = handle_cr c e w
  handle namespace (cr_deleted e) w = handle_cr_delete c namespace e w
  handle namespace job_updated w = (process_jobs c namespace w).1
  handle namespace (pod_seen pod) w = handle_pod c namespace pod w

  -- `Start` of the watcher, for a context that is cancelled after some calls.
  unfoldable pub watch : Text → List Notice → World W → World W
  unfolding handle
  watch namespace [] w = w
  watch namespace (n ∷ rest) w = watch namespace rest (handle namespace n w)

  ended : GoError × World W → Exit × World W
  unfolding fatal_if
  ended (e, w) = (fatal_if e, w)

  -- `Start` of the service: `NewTicker` panics on an interval that is not positive.
  unfoldable pub serve : Text → ℤ → ℕ → World W → Exit × World W
  unfolding ended
  serve namespace interval ticks w =
      if leb_ℤ interval (pos 0) then (crashed, w) else ended (run_rounds c ticks namespace w)

-- `main`, for a signal that comes after some ticks, or after some calls of the handlers.
unfoldable pub main :
    {W : Type 0}
    → (Text → Text)
    → (Text → Option ℤ)
    → Api W
    → Decoder
    → ℕ
    → List Notice
    → World W
    → Exit × World W
unfolding read_command watch serve
main {W} environ parse_duration api decoder ticks notices w =
    let k = read_command environ parse_duration in
    let c : Controller W = record { api = api; decoder = decoder; settings = k.settings } in
    if eqb k.mode (text "watch")
    then (finished, watch c k.namespace notices w)
    else serve c k.namespace k.interval ticks w
