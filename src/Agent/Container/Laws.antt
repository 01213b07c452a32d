-- ===== src/Agent/Container/Laws.antt =====
-- internal/infrastructure/container/container.go: what a container has of a configuration.
use multi_network_interface.Prelude.{◌≡◌}
use multi_network_interface.Prelude.Int.{pos, ◌≤ℤ◌}
use multi_network_interface.Prelude.Text.{Text}
use multi_network_interface.Errors.{GoError, Result, ok}
use multi_network_interface.Configure.{OsType}
use multi_network_interface.Rhel.Files.{Options}
use multi_network_interface.Config.{Config}
use multi_network_interface.Agent.Container.{Detector, manager_for, Container}

-- The options that the adapters work with: those of the configuration, but for a metric of zero.
abbrev pub Keeps : {F : Type 0} → Config F → Options → Type 0
Keeps c o =
    (o.enable_policy_routing ≡ c.network.policy_routing_enabled)
    × (o.routing_table_base ≡ c.network.routing_table_base)
    × (pos 1 ≤ℤ c.network.route_metric → o.metric_base ≡ c.network.route_metric)
    × (c.network.route_metric ≡ pos 0 → o.metric_base ≡ pos 100)

module _ (connect : Text → GoError) (detect : Detector → Result OsType) {F : Type 0} where
  abbrev pub Suits : Config F → Container F → Type 0
  Suits c k =
      (os : OsType) × (o : Options) × (detect k.infrastructure.detector ≡ ok os)
      × (k.configurer ≡ manager_for o os)
      × (k.rollbacker ≡ manager_for o os)
      × Keeps c o
