-- ===== src/Tests/Routes.antt =====
-- Two callers of the routing coordinator, the second of which is first; the container of a
-- configuration; and the image of a node.
use multi_network_interface.Prelude.{ℕ, suc, ◌*◌, ◌≡◌, refl, false, List, [], ◌∷◌}
use multi_network_interface.Prelude.Text.{Text, text, eqb, contains, to_lower, trim_space}
use multi_network_interface.Errors.{ok}
use multi_network_interface.Configure.{ubuntu}
use multi_network_interface.Routing.{
  Coordinator, is_locked, new_coordinator, lock, change, unlock, Step, Run, waiting, done,
}
use multi_network_interface.Routing.Laws.{run_all, inside, as_count, Run-serial}
use multi_network_interface.Rhel.Files.{Options, normalize}
use multi_network_interface.Agent.Container.{
  of_node, mysql, netplan_manager, network_options, build_dsn, Container,
}
use multi_network_interface.Adapters.{detector_node, os_of_image, detect_os_of_node}
use multi_network_interface.Adapters.Laws.{WritesWithin, detect_os_of_node-Mounted}
use multi_network_interface.Tests.Service.{variables, steady, config}
use multi_network_interface.Tests.Cluster.{params}

abbrev twice : ℕ → ℕ
twice n = n * 2

abbrev operations : List (List (ℕ → ℕ))
operations = (suc ∷ []) ∷ (twice ∷ []) ∷ []

abbrev ended : Coordinator ℕ
ended = record {
  locked = false;
  callers = waiting (suc ∷ []) ∷ done ∷ [];
  world = 6;
  started = twice ∷ [];
}

second_first : Run (new_coordinator 3 operations) ended
unfolding new_coordinator lock change unlock
second_first =
    Run.next
      (Run.next (Run.next Run.stop (Step.locks (waiting (suc ∷ []) ∷ []) (twice ∷ []) [] refl refl))
        (Step.changes (waiting (suc ∷ []) ∷ []) twice [] [] refl))
      (Step.unlocks (waiting (suc ∷ []) ∷ []) [] refl)

Run-serial_example :
    (inside ended.callers ≡ as_count (is_locked ended))
    × (is_locked ended ≡ false → 6 ≡ run_all (twice ∷ []) 3)
Run-serial_example = Run-serial 3 operations ended second_first

abbrev options : Options
options = normalize (network_options (config steady).network)

abbrev container : Container ℕ
container = record {
  infrastructure = record {
    detector = of_node;
    source = mysql (build_dsn (config steady).database);
  };
  configurer = netplan_manager options;
  rollbacker = netplan_manager options;
  max_retries = (config steady).agent.max_retries;
  multiplier = (config steady).agent.backoff.multiplier;
  command_timeout = (config steady).agent.command_timeout;
  max_concurrent_tasks = (config steady).agent.max_concurrent_tasks;
}

detects :
    detect_os_of_node (variables steady) (ok []) (λ node. ok (text "Ubuntu 22.04")) ≡ ok ubuntu
unfolding detect_os_of_node detector_node os_of_image eqb contains to_lower trim_space
detects = refl

detect_os_of_node-Mounted_example :
    (node : Text) × (image : Text) × (ok (text "Ubuntu 22.04") ≡ ok image)
    × WritesWithin ubuntu params image (text "multinic3")
detect_os_of_node-Mounted_example =
    detect_os_of_node-Mounted (variables steady) (ok []) (λ node. ok (text "Ubuntu 22.04")) ubuntu
      params (text "multinic3") detects
