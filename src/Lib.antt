-- ===== src/Lib.antt =====
-- This library is a model of the agent of the MultiNIC controller for OpenStack nodes, in
-- internal/ of the repository, with theorems about it. The agent reads the network interfaces that a
-- node should have from the MultiNicNodeConfig of the node, gives each of them a name multinic0 to
-- multinic9 that follows its MAC address, writes and applies a netplan or ifcfg file where one is
-- missing or drifted, and reports how many interfaces were processed and how many failed.
--
-- The parts, and the files that model them:
--
-- - Prelude: shared names; Prelude.Tests: Boolean tests on numbers; Prelude.Lists: lists; Prelude.Int:
--   Go's int; Prelude.Text: Go strings as lists of code points, on ASCII input, with the functions of
--   strings, strconv, fmt and path/filepath that the code calls. Host.Queries has the regular
--   expressions of the naming service, each as a function that finds the match Go prefers.
-- - Errors: internal/domain/errors/errors.go. GoError is the chain of causes of an error, nil
--   included; Result is a value with an error. Context, details and time stamps are left out.
-- - Entities, Entities.NodeName, Entities.InterfaceName, Entities.Interface:
--   internal/domain/entities/value_objects.go and network_interface.go. Package net is the record Net.
-- - Repository: internal/infrastructure/persistence/nodecr_repository.go; the source of the node
--   config is an argument. Repository.Source: nodecr_source_k8s.go, that source. Repository.Mysql:
--   mysql_repository.go, over two tables as lists of rows (Database).
-- - Host, Host.Queries: internal/domain/interfaces/os.go, and the queries of
--   internal/domain/services/interface_naming.go. A Host is what the files and the printing commands
--   of a node show at one moment.
-- - Naming, Naming.Reserve: the maps of InterfaceNamingService and GenerateNextNameForMAC, and the
--   three passes of ReserveNamesForInterfaces, of the same file. Each call runs under the service's
--   mutex, so that it is one function from maps to maps.
-- - Drift: internal/domain/services/drift_detector.go. The YAML decoder is an argument.
-- - Pool: internal/application/usecases/worker_pool.go. A state has the queue, the jobs that workers
--   hold, the calls of the after-hook and the flag of the context; Step is one action of a worker, of
--   the submitting goroutine or of the context, and Run is any sequence of them.
-- - Configure, Configure.Process, Configure.Execute: configure_network.go, orchestrator.go,
--   error_helpers.go, processing_decision.go and system_checks.go of internal/application/usecases.
--   The configurer, the rollbacker and the repository are the record Services over a type of worlds:
--   each call takes a world and returns the one that it leaves.
-- - Delete, Delete.Orphans: internal/application/usecases/delete_network.go. The decoder of the files is an
--   argument; a world is what the rollbacker and the renaming of devices change.
-- - Polling: internal/application/polling/strategy.go.
-- - Health: internal/infrastructure/health/health_service.go.
-- - Rhel, Rhel.Files, Rhel.Steps, Rhel.Configure: rhel_adapter.go and options.go of
--   internal/infrastructure/network: the search for a device, the options and the written files, and
--   Configure, Validate and Rollback as steps over the states of a node (System).
-- - Netplan: internal/infrastructure/network/netplan_adapter.go, with the steps of Rhel.Steps. The YAML
--   encoder is an argument.
-- - Controller and its children: internal/controller. Objects has the Kubernetes objects, Jobs the job
--   factory, Entries the entries of interfaceStatuses; Cluster has the calls of the Kubernetes API (Api)
--   over a type of clusters; Reconcile, Finish (ProcessJobs, ApplyTerminationSummary) and Watch (the
--   handlers and the service) are functions from worlds to worlds, where a world is a cluster and the
--   deletions that goroutines will make later. Command: cmd/controller/main.go and the two loops of the
--   controller; the calls of the watcher's handlers are a list, in the order in which they are made.
-- - Config: internal/infrastructure/config/config.go. The environment is a function, empty where a
--   variable is not set; ParseDuration and ParseFloat are the record Parsers.
-- - Agent: cmd/agent/main.go, one cycle (process_network_configurations) over an Application: the world,
--   the maps of the naming service, the health service and the termination log. Agent.Run: Run, as a job
--   and as a service for a number of ticks, with how it ends (Ending). Agent.Container:
--   internal/infrastructure/container/container.go and internal/infrastructure/network/factory.go.
-- - Adapters: os_detector.go, os_detector_k8s.go, and the checks of command_executor.go and filesystem.go,
--   of internal/infrastructure/adapters.
-- - Routing: internal/domain/services/routing_coordinator.go. A Coordinator has the mutex, the callers of
--   ExecuteWithLock and the routing tables; Step is one action of one caller.
-- - Tests and its children: concrete inputs for the theorems that have hypotheses.
--
-- How they interact: Execute reserves names (Naming.Reserve), submits every interface to the pool with
-- the retry policy (Configure), and the handler checks the device (preflight_check), generates the
-- name (Naming), decides whether anything is to be done (Drift), and applies and validates the
-- configuration (Configure.Process); the after-hook counts. A cycle of the agent deletes what is
-- orphaned (Delete), executes, and counts in Health; Run repeats it at the intervals of Polling, with
-- what Config has read. The controller starts the agent as a job and reads its summary.
--
-- Bounds and fuel: execute runs the loop of one worker, after all jobs are submitted, on fuel of
-- max_retries + 1 rounds for each interface; execute_counts shows that the queue is empty then. A
-- number is printed with fuel of 20 digits, which is enough for 64 bits. Slots are the ten names that
-- the loops try. float64 is a parameter of the backoff (Float).
--
-- Not modelled: metrics, logs, the start of the health and metrics servers, the informers of the
-- controller and their goroutines, the connection pool of the database and the calls of the file system
-- and the clock, which are pure I/O. In Execute, other schedules than that of one worker, panics of the handler and cancellation are
-- in Pool only. A run of the service is cancelled between two cycles, not within one.
pub mod Prelude
pub mod Errors
pub mod Entities
pub mod Repository
pub mod Host
pub mod Naming
pub mod Drift
pub mod Pool
pub mod Configure
pub mod Delete
pub mod Polling
pub mod Health
pub mod Rhel
pub mod Netplan
pub mod Controller
pub mod Config
pub mod Routing
pub mod Agent
pub mod Adapters
pub mod Tests
