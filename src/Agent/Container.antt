-- ===== src/Agent/Container.antt =====
-- internal/infrastructure/container/container.go and internal/infrastructure/network/factory.go: what
-- the agent is built of. The Kubernetes clients and the connection to the database are parameters.
pub mod Laws
use multi_network_interface.Prelude.{Bool, true, false, not, ◌++◌, if◌then◌else◌}
use multi_network_interface.Prelude.Int.{ℤ}
use multi_network_interface.Prelude.Text.{Text, text, eqb}
use multi_network_interface.Errors.{
  GoError, is_nil, plain, Result, ok, err, ◌>>=◌, new_system_error,
}
use multi_network_interface.Configure.{OsType, ubuntu, rhel}
use multi_network_interface.Rhel.Files.{Options, normalize}
use multi_network_interface.Config.{DatabaseConfig, NetworkConfig, Config}

-- The options that `initializeServices` takes from the configuration.
unfoldable pub network_options : NetworkConfig → Options
network_options c = record {
  enable_policy_routing = c.policy_routing_enabled;
  routing_table_base = c.routing_table_base;
  metric_base = c.route_metric;
  use_noprefixroute = c.use_no_prefix_route;
  set_arp_sysctls = c.set_arp_sysctls;
  set_loose_rp_filter = c.set_loose_rp_filter;
}

-- The adapter that a factory makes.
pub data NetworkManager : Type 0 where
  netplan_manager : Options → NetworkManager
  rhel_manager : Options → NetworkManager

unfoldable pub manager_for : Options → OsType → NetworkManager
manager_for o ubuntu = netplan_manager o
manager_for o rhel = rhel_manager o

unfoldable pub made_for : Options → Result OsType → Result NetworkManager
unfolding manager_for
made_for o (err e) = err (new_system_error (text "failed to detect OS") e)
made_for o (ok os) = ok (manager_for o os)

-- `NewNetworkManagerFactory` and `CreateNetworkConfigurer`; there is no third type of OS here.
unfoldable pub create_network_configurer : Options → Result OsType → Result NetworkManager
unfolding made_for
create_network_configurer o detected = made_for (normalize o) detected

-- `CreateNetworkRollbacker`: both adapters are rollbackers.
unfoldable pub create_network_rollbacker : Options → Result OsType → Result NetworkManager
create_network_rollbacker o detected = create_network_configurer o detected

-- `buildDSN`.
unfoldable pub build_dsn : DatabaseConfig → Text
build_dsn d =
    d.user
    ++ (text ":"
        ++ (d.password
            ++ (text "@tcp("
                ++ (d.host
                    ++ (text ":"
                        ++ (d.port ++ (text ")/" ++ (d.database ++ text "?parseTime=true"))))))))

-- The detector and the repository that `initializeInfrastructure` chooses.
pub data Detector : Type 0 where
  of_node : Detector
  of_file : Detector

pub data Source : Type 0 where
  node_cr : Text → Source
  mysql : Text → Source

pub record Infrastructure : Type 0 where
  pub detector : Detector
  pub source : Source

-- `sql.Open` and `Ping`.
module _ (connect : Text → GoError) {F : Type 0} where
  with_database : Config F → Detector → Result Infrastructure
  unfolding build_dsn
  with_database c detector =
      let e = connect (build_dsn c.database) in
      if is_nil e
      then ok (record { detector = detector; source = mysql (build_dsn c.database) })
      else err e

  -- `initializeInfrastructure`, with a Kubernetes client or without one.
  unfoldable pub initialize_infrastructure : Bool → Config F → Result Infrastructure
  unfolding with_database
  initialize_infrastructure client c =
      let detector = if client then of_node else of_file in
      if eqb c.agent.data_source (text "nodecr")
      then if client
        then ok (record { detector = detector; source = node_cr c.agent.node_cr_namespace })
        else err (plain (text "kubernetes client not available for nodecr data source"))
      else with_database c detector

-- `Container`, as far as the use cases depend on it.
pub record Container (F : Type 0) : Type 0 where
  pub infrastructure : Infrastructure
  pub configurer : NetworkManager
  pub rollbacker : NetworkManager
  pub max_retries : ℤ
  pub multiplier : F
  pub command_timeout : ℤ
  pub max_concurrent_tasks : ℤ

module _ (connect : Text → GoError) (detect : Detector → Result OsType) {F : Type 0} where
  -- `NewContainer`.
  unfoldable pub new_container : Bool → Config F → Result (Container F)
  unfolding initialize_infrastructure network_options create_network_configurer
      create_network_rollbacker
  new_container client c = do
    infrastructure ← initialize_infrastructure connect client c
    configurer ←
        create_network_configurer (network_options c.network) (detect infrastructure.detector)
    rollbacker ←
        create_network_rollbacker (network_options c.network) (detect infrastructure.detector)
    ok (record {
      infrastructure = infrastructure;
      configurer = configurer;
      rollbacker = rollbacker;
      max_retries = c.agent.max_retries;
      multiplier = c.agent.backoff.multiplier;
      command_timeout = c.agent.command_timeout;
      max_concurrent_tasks = c.agent.max_concurrent_tasks;
    })
