-- ===== src/Agent.antt =====
-- cmd/agent/main.go: one cycle of the agent, which removes what is orphaned and then configures the
-- interfaces of its node. The health server, the metrics, the logs and the time stamp of the summary
-- are left out; writing the summary to /dev/termination-log never fails here.
pub mod Container
pub mod Run
pub mod Laws
use multi_network_interface.Prelude.{
  ℕ, zero, suc, Bool, true, false, ◌&&◌, ◌||◌, not, Option, none, some, List, [], ◌∷◌, ◌++◌, length,
  ltb, ◌==◌, if◌then◌else◌,
}
use multi_network_interface.Prelude.Int.{ℤ}
use multi_network_interface.Prelude.Text.{Text, text, eqb, is_empty, trim_space, equal_fold, itoa}
use multi_network_interface.Prelude.Text.Words.{cut_at}
use multi_network_interface.Errors.{GoError, nil, plain, Result, ok, err}
use multi_network_interface.Entities.{Net}
use multi_network_interface.Naming.{Naming}
use multi_network_interface.Configure.{Services, Float}
use multi_network_interface.Configure.Execute.{InterfaceFailure, InterfaceResult, Output, execute}
use multi_network_interface.Delete.{Deleted, Parts}
use multi_network_interface.Delete.Orphans.{execute_delete}
use multi_network_interface.Health.{
  HealthService, increment_processed_vms, increment_failed_configs,
}

-- `cleanHostnameDomainSuffix`.
unfoldable pub clean_hostname_domain_suffix : Text → Text
clean_hostname_domain_suffix h = (cut_at b'.' h).0

cleaned : Result Text → Result Text
unfolding clean_hostname_domain_suffix
cleaned (err e) = err e
cleaned (ok h) = ok (clean_hostname_domain_suffix h)

-- `resolveNodeName`; `hostname` is what `os.Hostname` returns.
unfoldable pub resolve_node_name : (Text → Text) → Result Text → Result Text
unfolding cleaned
resolve_node_name getenv hostname =
    if not (is_empty (trim_space (getenv (text "NODE_NAME"))))
    then ok (getenv (text "NODE_NAME"))
    else if not (is_empty (trim_space (getenv (text "MY_NODE_NAME"))))
    then ok (getenv (text "MY_NODE_NAME"))
    else cleaned hostname

-- What is written to the termination log.
pub record Summary : Type 0 where
  pub node : Text
  pub processed : ℕ
  pub failed : ℕ
  pub total : ℕ
  pub failures : List InterfaceFailure
  pub results : List InterfaceResult
  pub deleted_total : ℕ
  pub delete_errors : ℕ

-- `Application`, as far as it changes: the node, the maps of the naming service, the health service,
-- and the termination log.
pub record Application (W : Type 0) : Type 0 where
  pub world : W
  pub naming : Naming
  pub health : HealthService
  pub termination_log : Option Summary

-- The policy for partial failures: a text that is set has to say true.
unfoldable pub complete_on_partial : Text → Bool
complete_on_partial v = equal_fold (trim_space v) (text "true") || is_empty v

counts_error : Text → Output → GoError
counts_error message out = plain (
    message
    ++ (itoa out.failed_count ++ (text "/" ++ (itoa out.total_count ++ text " interfaces"))))

-- `resultErr`, for a value of JOB_COMPLETE_ON_PARTIAL_FAILURE.
unfoldable pub result_error : Text → Output → GoError
unfolding complete_on_partial counts_error
result_error policy out =
    if not (ltb 0 out.failed_count)
    then nil
    else if out.processed_count == 0
    then counts_error (text "network configuration failed for ") out
    else if ltb 0 out.processed_count && ltb 0 out.failed_count
    then if complete_on_partial policy
      then nil
      else counts_error (text "network configuration partially failed: ") out
    else counts_error (text "network configuration failed for ") out

-- The two loops that count.
repeated {ℓ} : {A : Type ℓ} → ℕ → (A → A) → A → A
repeated zero f a = a
repeated (suc n) f a = repeated n f (f a)

unfoldable pub count_health : Output → HealthService → HealthService
unfolding repeated
count_health out h =
    repeated out.failed_count increment_failed_configs
      (repeated out.processed_count increment_processed_vms h)

summary_of : Text → Output → Deleted → Summary
summary_of node out deleted = record {
  node = node;
  processed = out.processed_count;
  failed = out.failed_count;
  total = out.total_count;
  failures = out.failures;
  results = out.results;
  deleted_total = deleted.total_deleted;
  delete_errors = length deleted.errors;
}

-- The log after a cycle: it is left alone where nothing was done.
unfoldable pub logged : Text → Output → Deleted → Option Summary → Option Summary
unfolding summary_of
logged node out deleted log =
    if ltb 0 out.processed_count || (ltb 0 out.failed_count || ltb 0 deleted.total_deleted)
    then some (summary_of node out deleted)
    else log

-- An error of the deletion counts as one, and is not returned.
unfoldable pub deleted_or_error : Result Deleted → Deleted
deleted_or_error (ok out) = out
deleted_or_error (err e) = record { deleted_interfaces = []; total_deleted = 0; errors = e ∷ [] }

-- What the two use cases of the container work with: both have the rollbacker, the repository and
-- the detector of the OS in common.
pub record Setup (W F : Type 0) : Type 0 where
  pub net : Net
  pub services : Services W
  pub rename : Text → Text → W → GoError × W
  pub parse_macs : Text → Result (List Text)
  pub hostname : Result Text
  pub float : Float F
  pub retries : ℤ
  pub multiplier : F

abbrev pub parts_of : {W F : Type 0} → Setup W F → Parts W
parts_of setup = record {
  host = setup.services.host;
  getenv = setup.services.getenv;
  detect_os = setup.services.detect_os;
  all_node_interfaces = setup.services.all_node_interfaces;
  rollback = setup.services.rollback;
  rename = setup.rename;
  parse_macs = setup.parse_macs;
}

module _ {W F : Type 0} (setup : Setup W F) where
  -- The cycle behind both use cases.
  unfoldable pub reported :
      Text → Deleted → Application W → Result Output × Naming × W → GoError × Application W
  reported node deleted s (err e, naming, w) = (e, record s { world = w; naming = naming })
  reported node deleted s (ok out, naming, w) = (
    result_error (setup.services.getenv (text "JOB_COMPLETE_ON_PARTIAL_FAILURE")) out,
    record {
      world = w;
      naming = naming;
      health = count_health out s.health;
      termination_log = logged node out deleted s.termination_log;
    },
  )

  cycle_for : Application W → Result Text → GoError × Application W
  unfolding reported deleted_or_error
  cycle_for s (err e) = (e, s)
  cycle_for s (ok node) =
      let deletion =
        execute_delete (parts_of setup) (record { node_name = node; full_cleanup = false })
          s.world in
      reported node (deleted_or_error deletion.0) s (
        execute setup.net setup.services setup.float setup.retries setup.multiplier node s.naming
          deletion.1)

  -- `processNetworkConfigurations`.
  unfoldable pub process_network_configurations : Application W → GoError × Application W
  unfolding cycle_for
  process_network_configurations s =
      cycle_for s (resolve_node_name setup.services.getenv setup.hostname)
