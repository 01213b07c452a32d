-- ===== src/Tests/Service.antt =====
-- The agent as a service and as a job, on the node with one card, and on the node with one file.
use multi_network_interface.Prelude.{
  ℕ, ◌+◌, ◌*◌, ◌^◌, ◌≡◌, ◌↔◌, refl, true, false, none, some, List, [], ◌∷◌, length, ◌⊎◌, ltb,
  if◌then◌else◌, arith,
}
use multi_network_interface.Prelude.Int.{pos}
use multi_network_interface.Prelude.Text.{Text, text, eqb, trim_space}
use multi_network_interface.Errors.{
  GoError, nil, plain, is_nil, validation, domain_type, Result, ok, err,
}
use multi_network_interface.Naming.{new_naming}
use multi_network_interface.Configure.{ubuntu}
use multi_network_interface.Configure.Execute.{Output}
use multi_network_interface.Health.{new_health_service, answer, serve_http, build_health_response}
use multi_network_interface.Polling.{Float}
use multi_network_interface.Config.{Config, Parsers, read_config, load}
use multi_network_interface.Config.Laws.{IsUsable, load-cases}
use multi_network_interface.Host.Queries.{list_netplan_files}
use multi_network_interface.Delete.{Deleted, netplan_dir, is_multinic_netplan_file, only}
use multi_network_interface.Delete.Orphans.{execute_delete}
use multi_network_interface.Agent.Run.Cleanup.{cleanup_input, run-cleanup}
use multi_network_interface.Tests.Removal.{office}
use multi_network_interface.Agent.{
  Application, Setup, parts_of, resolve_node_name, process_network_configurations,
}
use multi_network_interface.Agent.Laws.{Reports}
use multi_network_interface.Agent.Run.{returned, panicked, task, run}
use multi_network_interface.Agent.Run.Laws.{task-Reports, run-panics}
use multi_network_interface.Tests.{ipv4, iface}
use multi_network_interface.Tests.Use.{services, natural}

abbrev pub variables : List (Text × Text) → Text → Text
variables [] key = []
variables ((k, v) ∷ rest) key = let later = variables rest key in if eqb k key then v else later

abbrev setup : List (Text × Text) → Result Text → Setup ℕ ℕ
setup env hostname = record {
  net = ipv4;
  services = record (services nil) { getenv = variables env };
  rename = λ old new w. (nil, w);
  parse_macs = λ content. ok [];
  hostname = hostname;
  float = natural;
  retries = pos 3;
  multiplier = 2;
}

abbrev powers : Float ℕ
powers = record {
  two = 2;
  one_and_half = 1;
  is_above_one = λ x. ltb 1 x;
  of_duration = λ d. 1;
  times = λ x y. x * y;
  pow = λ x k. x ^ k;
  to_duration = λ x. pos x;
}

abbrev pub parsers : Parsers ℕ
parsers = record {
  parse_duration = λ t. if eqb t (text "0s") then some (pos 0) else none;
  parse_float = λ t. none;
  two = 2;
}

abbrev fresh : Application ℕ
fresh = record {
  world = 0;
  naming = new_naming;
  health = new_health_service (pos 0);
  termination_log = none;
}

abbrev pub steady : List (Text × Text)
steady = (text "BACKOFF_ENABLED", text "false") ∷ (text "NODE_NAME", text "n1") ∷ []

abbrev hasty : List (Text × Text)
hasty = (text "BACKOFF_MAX_INTERVAL", text "0s") ∷ []

abbrev pub config : List (Text × Text) → Config ℕ
config env = read_config (variables env) parsers

pub is_loaded : load (variables steady) parsers ≡ ok (config steady)
unfolding load eqb
is_loaded = refl

is_named : resolve_node_name (variables steady) (ok []) ≡ ok (text "n1")
unfolding resolve_node_name eqb trim_space
is_named = refl

task-Reports_example :
    (out : Output) × (out.processed_count + out.failed_count ≡ 1)
    × Reports (setup steady (ok [])) fresh out (task (setup steady (ok [])) fresh)
    × ((serve_http (pos 5) (task (setup steady (ok [])) fresh).1.health (text "GET")
          ≡ answer 503 (build_health_response (pos 5) (task (setup steady (ok [])) fresh).1.health))
        ↔ (is_nil (task (setup steady (ok [])) fresh).0 ≡ false))
unfolding services
task-Reports_example =
    task-Reports (setup steady (ok [])) (text "n1") ubuntu (iface ∷ []) is_named refl refl fresh
      (pos 5)

hasty_loaded : load (variables hasty) parsers ≡ ok (config hasty)
unfolding load eqb
hasty_loaded = refl

hasty_service : eqb (config hasty).agent.run_mode (text "job") ≡ false
unfolding eqb read_config
hasty_service = refl

hasty_on : (config hasty).agent.backoff.enabled ≡ true
unfolding eqb read_config
hasty_on = refl

hasty_zero : (config hasty).agent.backoff.max_interval ≡ pos 0
unfolding eqb read_config
hasty_zero = refl

nameless : Setup ℕ ℕ
nameless = setup hasty (err (plain (text "no hostname")))

nameless_fails : is_nil (process_network_configurations nameless fresh).0 ≡ false
unfolding nameless process_network_configurations resolve_node_name eqb trim_space
nameless_fails = refl

run-panics_example :
    run nameless powers 1 (config hasty) fresh ≡ (panicked, (task nameless fresh).1)
unfolding nameless services
run-panics_example =
    run-panics powers nameless parsers (config hasty) 0 fresh ubuntu hasty_loaded hasty_service
      hasty_on (rw hasty_zero (omega arith)) refl nameless_fails

load-cases_example :
    ((load (variables hasty) parsers ≡ ok (config hasty)) × IsUsable (config hasty))
    ⊎ ((e : GoError) × (load (variables hasty) parsers ≡ err e)
        × (domain_type e ≡ some validation)
        × ¬ IsUsable (config hasty))
load-cases_example = load-cases (variables hasty) parsers

abbrev cleaning : List (Text × Text)
cleaning = (text "RUN_MODE", text "job") ∷ (text "AGENT_ACTION", text "cleanup") ∷ []

-- No rollback succeeds.
abbrev stuck : Setup ℕ ℕ
stuck = record (setup cleaning (ok (text "n1"))) {
  services = record (services nil) {
    host = λ w. office;
    getenv = variables cleaning;
    rollback = λ name w. (plain (text "permission denied"), w);
  };
}

is_job : eqb (config cleaning).agent.run_mode (text "job") ≡ true
unfolding eqb read_config
is_job = refl

lists_one : list_netplan_files office netplan_dir ≡ ok (text "93-multinic3.yaml" ∷ [])
unfolding list_netplan_files office eqb
lists_one = refl

asks : eqb (variables cleaning (text "AGENT_ACTION")) (text "cleanup") ≡ true
unfolding eqb
asks = refl

run-cleanup_example :
    ((run stuck powers 0 (config cleaning) fresh).0 ≡ returned nil)
    × (out : Deleted) × ((execute_delete (parts_of stuck) (cleanup_input stuck) 0).0 ≡ ok out)
    × (out.total_deleted + length out.errors
        ≡ length (only is_multinic_netplan_file (text "93-multinic3.yaml" ∷ [])))
unfolding services
run-cleanup_example =
    run-cleanup stuck powers 0 (config cleaning) fresh (text "93-multinic3.yaml" ∷ []) is_job asks
      refl lists_one
