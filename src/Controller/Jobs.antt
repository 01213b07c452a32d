-- ===== src/Controller/Jobs.antt =====
-- internal/controller/jobfactory.go: the job that runs the agent on a node.
use multi_network_interface.Prelude.{Bool, true, ◌||◌, Option, List, [], ◌∷◌, if◌then◌else◌}
use multi_network_interface.Prelude.Int.{ℤ, pos}
use multi_network_interface.Prelude.Text.{
  Text, text, is_empty, contains, to_lower, trim_space, itoa_ℤ,
}
use multi_network_interface.Controller.Objects.{Dict}

pub data OsFamily : Type 0 where
  ubuntu : OsFamily
  rhel : OsFamily

-- `OSFamilyFromOSImage`.
unfoldable pub os_family_from_os_image : Text → OsFamily
os_family_from_os_image image =
    if contains (to_lower image) (text "ubuntu")
    then ubuntu
    else if contains (to_lower image) (text "red hat")
        || (contains (to_lower image) (text "rhel")
            || (contains (to_lower image) (text "centos")
                || (contains (to_lower image) (text "rocky")
                    || (contains (to_lower image) (text "alma")
                        || contains (to_lower image) (text "oracle")))))
    then rhel
    else rhel

pub record JobParams : Type 0 where
  pub namespace : Text
  pub name : Text
  pub image : Text
  pub pull_policy : Text
  pub service_account_name : Text
  pub node_name : Text
  pub node_cr_namespace : Text
  pub ttl_seconds_after_done : Option ℤ
  pub action : Text

-- A volume of a directory of the host, which is made if it is not there.
pub record Volume : Type 0 where
  pub name : Text
  pub host_path : Text

pub record VolumeMount : Type 0 where
  pub name : Text
  pub mount_path : Text

-- A variable of the environment, with its value or the field of the pod that gives it.
pub data EnvVar : Type 0 where
  literal : Text → Text → EnvVar
  field_ref : Text → Text → EnvVar

-- An HTTP probe.
pub record Probe : Type 0 where
  pub path : Text
  pub port : ℤ
  pub initial_delay_seconds : ℤ
  pub period_seconds : ℤ

pub record Toleration : Type 0 where
  pub key : Text
  pub operator : Text
  pub value : Text
  pub effect : Text

pub record Container : Type 0 where
  pub name : Text
  pub image : Text
  pub pull_policy : Text
  pub command : List Text
  pub env : List EnvVar
  pub liveness : Probe
  pub readiness : Probe
  pub privileged : Bool
  pub capabilities : List Text
  pub mounts : List VolumeMount

-- `batchv1.Job`, with the two counters of its status that the controller reads.
pub record Job : Type 0 where
  pub name : Text
  pub namespace : Text
  pub labels : Dict Text
  pub ttl_seconds_after_finished : Option ℤ
  pub backoff_limit : ℤ
  pub template_labels : Dict Text
  pub service_account_name : Text
  pub restart_policy : Text
  pub host_network : Bool
  pub host_pid : Bool
  pub node_selector : Dict Text
  pub containers : List Container
  pub volumes : List Volume
  pub tolerations : List Toleration
  pub succeeded : ℤ
  pub failed : ℤ

unfoldable pub volumes_of : OsFamily → List Volume
volumes_of ubuntu = record { name = text "netplan"; host_path = text "/etc/netplan" } ∷ []
volumes_of rhel =
    record {
      name = text "nm-connections";
      host_path = text "/etc/NetworkManager/system-connections";
    }
    ∷ record { name = text "systemd-network"; host_path = text "/etc/systemd/network" }
    ∷ []

unfoldable pub mounts_of : OsFamily → List VolumeMount
mounts_of ubuntu = record { name = text "netplan"; mount_path = text "/etc/netplan" } ∷ []
mounts_of rhel =
    record {
      name = text "nm-connections";
      mount_path = text "/etc/NetworkManager/system-connections";
    }
    ∷ record { name = text "systemd-network"; mount_path = text "/etc/systemd/network" }
    ∷ []

abbrev health_port : ℤ
health_port = pos 18_080

-- The label of the action.
action_label : Text → Text
action_label action = if is_empty (trim_space action) then text "apply" else action

agent_env : JobParams → List EnvVar
agent_env p =
    literal (text "RUN_MODE") (text "job")
    ∷ literal (text "DATA_SOURCE") (text "nodecr")
    ∷ literal (text "NODE_CR_NAMESPACE") p.node_cr_namespace
    ∷ field_ref (text "NODE_NAME") (text "spec.nodeName")
    ∷ literal (text "LOG_LEVEL") (text "info")
    ∷ literal (text "POLL_INTERVAL") (text "30s")
    ∷ literal (text "HEALTH_PORT") (itoa_ℤ health_port)
    ∷ literal (text "AGENT_ACTION") p.action
    ∷ []

agent_container : OsFamily → JobParams → Container
unfolding agent_env
agent_container family p = record {
  name = text "multinic-agent";
  image = p.image;
  pull_policy = p.pull_policy;
  command = text "./multinic-agent" ∷ [];
  env = agent_env p;
  liveness = record {
    path = text "/";
    port = health_port;
    initial_delay_seconds = pos 30;
    period_seconds = pos 30;
  };
  readiness = record {
    path = text "/";
    port = health_port;
    initial_delay_seconds = pos 5;
    period_seconds = pos 10;
  };
  privileged = true;
  capabilities = text "NET_ADMIN" ∷ text "SYS_ADMIN" ∷ [];
  mounts = mounts_of family;
}

no_schedule : Text → Text → Text → Toleration
no_schedule key operator value = record {
  key = key;
  operator = operator;
  value = value;
  effect = text "NoSchedule";
}

-- `BuildAgentJob`.
unfoldable pub build_agent_job : Text → JobParams → Job
unfolding action_label agent_container no_schedule
build_agent_job os_image p = record {
  name = p.name;
  namespace = p.namespace;
  labels =
      (text "app.kubernetes.io/name", text "multinic-agent")
      ∷ (text "app.kubernetes.io/managed-by", text "multinic-controller")
      ∷ (text "multinic.io/node-name", p.node_name)
      ∷ (text "multinic.io/action", action_label p.action)
      ∷ [];
  ttl_seconds_after_finished = p.ttl_seconds_after_done;
  backoff_limit = pos 1;
  template_labels = (text "app.kubernetes.io/name", text "multinic-agent") ∷ [];
  service_account_name = p.service_account_name;
  restart_policy = text "OnFailure";
  host_network = true;
  host_pid = true;
  node_selector = (text "kubernetes.io/hostname", p.node_name) ∷ [];
  containers = agent_container (os_family_from_os_image os_image) p ∷ [];
  volumes = volumes_of (os_family_from_os_image os_image);
  tolerations =
      no_schedule (text "node-role.kubernetes.io/control-plane") (text "Exists") []
      ∷ no_schedule (text "node-role.kubernetes.io/master") (text "Exists") []
      ∷ no_schedule (text "node") (text "Equal") (text "infra")
      ∷ [];
  succeeded = pos 0;
  failed = pos 0;
}
