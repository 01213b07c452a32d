-- ===== src/Controller/Reconcile.antt =====
-- internal/controller/reconciler.go: Reconcile, ProcessAll, the update of the interface states and the
-- cleanup job.
pub mod Laws
use multi_network_interface.Prelude.{
  ℕ, Bool, true, false, ◌&&◌, ◌||◌, not, Option, none, some, List, [], ◌∷◌, ◌++◌, if◌then◌else◌,
}
use multi_network_interface.Prelude.Int.{ℤ, pos, ◌==ℤ◌}
use multi_network_interface.Prelude.Text.{Text, text, eqb, is_empty, to_lower, trim_space, itoa_ℤ}
use multi_network_interface.Errors.{GoError, nil, is_nil, plain, wrapped, Result, ok, err}
use multi_network_interface.Controller.Objects.{label, CrStatus, Cr, Node, Condition}
use multi_network_interface.Controller.Jobs.{Job, JobParams, build_agent_job}
use multi_network_interface.Controller.Entries.{
  build_interface_statuses, build_enhanced_interface_statuses, is_node_ready,
}
use multi_network_interface.Controller.Cluster.{
  Controller, World, compute_spec_hash, delete_job, schedule_job_deletion, update_cr_status,
  jobs_of_node,
}

-- `normalizeUUID`.
unfoldable pub normalize_uuid : Text → Text
normalize_uuid s = to_lower (trim_space s)

-- The name of the node of a resource.
unfoldable pub node_of : Cr → Text
node_of u = if is_empty u.node_name then u.name else u.node_name

-- The instance that the spec or a label of a resource names.
unfoldable pub instance_of : Cr → Text
instance_of u =
    if is_empty u.instance_id
    then label (text "multinic.io/instance-id") u.labels
    else u.instance_id

-- The spec is not the one that was seen last.
unfoldable pub spec_changed : Cr → Bool
spec_changed u =
    u.status.observed_generation ==ℤ pos 0 || not (u.generation ==ℤ u.status.observed_generation)

-- The resource is done, and its spec has not changed.
unfoldable pub is_settled : Cr → Bool
is_settled u =
    (eqb u.status.state (text "Configured") || eqb u.status.state (text "Failed"))
    && not (spec_changed u)

unfoldable pub job_name : Text → ℤ → Text
job_name node generation = text "multinic-agent-" ++ (node ++ (text "-g" ++ itoa_ℤ generation))

module _ {W : Type 0} (c : Controller W) where
  job_params : Text → Text → Text → Text → JobParams
  job_params namespace name node action = record {
    namespace = namespace;
    name = name;
    image = c.settings.agent_image;
    pull_policy = c.settings.image_pull_policy;
    service_account_name = c.settings.service_account;
    node_name = node;
    node_cr_namespace = c.settings.node_cr_namespace;
    ttl_seconds_after_done = c.settings.job_ttl_seconds;
    action = action;
  }

  unfoldable pub apply_job : Text → Cr → Node → Job
  unfolding job_params
  apply_job namespace u node =
      build_agent_job node.os_image
        (job_params namespace (job_name (node_of u) u.generation) (node_of u) [])

  -- The status while the job runs.
  unfoldable pub in_progress : Cr → Job → CrStatus → CrStatus
  in_progress u job s =
      let reason = if spec_changed u then text "SpecChanged" else text "JobScheduled" in
      record s {
        state = text "InProgress";
        observed_generation = u.generation;
        observed_spec_hash = compute_spec_hash c.decoder u;
        last_job_name = job.name;
        conditions =
            record { kind = text "InProgress"; status = text "True"; reason = reason } ∷ [];
        interface_statuses = build_interface_statuses u (text "InProgress") reason;
      }

  -- The deletion of the jobs that have another name.
  unfoldable pub delete_stale : Text → Text → List Job → World W → World W
  delete_stale namespace name [] w = w
  delete_stale namespace name (job ∷ jobs) w =
      delete_stale namespace name jobs
        (if eqb job.name name then w else schedule_job_deletion c namespace job.name w)

  listed : Result (List Job) → List Job
  listed (ok jobs) = jobs
  listed (err _) = []

  -- After the job was created.
  created : Text → Text → Text → GoError × World W → GoError × World W
  unfolding listed
  created namespace node name (e, w) =
      if is_nil e
      then (
        nil,
        delete_stale namespace name
            (listed (c.api.list_jobs w.cluster namespace (jobs_of_node node))) w,
      )
      else (e, w)

  create : Text → Job → World W → GoError × World W
  create namespace job w =
      let r = c.api.create_job namespace job w.cluster in (r.0, record w { cluster = r.1 })

  ensured : Text → Text → Job → World W → Result Job → GoError × World W
  unfolding created create
  ensured namespace node job w (ok _) = (nil, w)
  ensured namespace node job w (err _) = created namespace node job.name (create namespace job w)

  ensure_job : Text → Text → Job → World W → GoError × World W
  unfolding ensured
  ensure_job namespace node job w =
      ensured namespace node job w (c.api.get_job w.cluster namespace job.name)

  -- The rest of `Reconcile`, with the node.
  unfoldable pub schedule : Text → Cr → Node → World W → GoError × World W
  unfolding ensure_job
  schedule namespace u node w =
      let job = apply_job namespace u node in
      ensure_job namespace (node_of u) job (update_cr_status c u (in_progress u job) w).1

  mismatch : Cr → Node → Bool
  mismatch u node =
      not (is_empty (instance_of u))
      && not (eqb (normalize_uuid (instance_of u)) (normalize_uuid node.system_uuid))

  with_node : Text → Cr → Result Node → World W → GoError × World W
  unfolding mismatch
  with_node namespace u (err e) w =
      (wrapped (text "failed to get node " ++ (node_of u ++ text ": ")) e, w)
  with_node namespace u (ok node) w =
      if mismatch u node
      then (
        plain (
            text "instance-id mismatch: cr="
            ++ (instance_of u ++ (text " node=" ++ node.system_uuid))),
        w,
      )
      else schedule namespace u node w

  with_cr : Text → Result Cr → World W → GoError × World W
  unfolding with_node
  with_cr namespace (err e) w = (e, w)
  with_cr namespace (ok u) w =
      if is_settled u
      then (nil, w)
      else with_node namespace u (c.api.get_node w.cluster (node_of u)) w

  -- `Reconcile`.
  unfoldable pub reconcile : Text → Text → World W → GoError × World W
  unfolding with_cr
  reconcile namespace name w = with_cr namespace (c.api.get_cr w.cluster namespace name) w

  -- The status with the state of the node.
  unfoldable pub with_states : Cr → Node → CrStatus → CrStatus
  with_states u node s = record s {
    interface_statuses = build_enhanced_interface_statuses u node;
    node_ready = is_node_ready node;
  }

  states_of : Cr → Result Node → World W → GoError × World W
  states_of u (err e) w = (e, w)
  states_of u (ok node) w = (nil, (update_cr_status c u (with_states u node) w).1)

  -- `updateInterfaceStates`: it looks for a node with the name of the resource.
  unfoldable pub update_interface_states : Text → Text → World W → GoError × World W
  unfolding states_of
  update_interface_states namespace name w = elim (c.api.get_cr w.cluster namespace name) [
    | err e ↦ (e, w)
    | ok u ↦ states_of u (c.api.get_node w.cluster name) w
  ]

  -- The loop of `ProcessAll`.
  unfoldable pub process_crs : Text → List Cr → World W → GoError × World W
  process_crs namespace [] w = (nil, w)
  process_crs namespace (u ∷ us) w =
      let r = reconcile namespace u.name w in
      let rest = process_crs namespace us (update_interface_states namespace u.name r.1).1 in
      if is_nil r.0 then rest else r

  -- `ProcessAll`.
  unfoldable pub process_all : Text → World W → GoError × World W
  process_all namespace w = elim (c.api.list_crs w.cluster namespace) [
    | err e ↦ (e, w)
    | ok us ↦ process_crs namespace us w
  ]

  -- `DeleteJobForNode`.
  unfoldable pub delete_job_for_node : Text → Text → World W → World W
  delete_job_for_node namespace node w =
      (delete_job c namespace (text "multinic-agent-" ++ node) w).1

  unfoldable pub cleanup_name : Text → Text
  cleanup_name node = text "multinic-agent-cleanup-" ++ node

  unfoldable pub cleanup_job : Text → Text → Node → Job
  unfolding job_params
  cleanup_job namespace node info =
      build_agent_job info.os_image (job_params namespace (cleanup_name node) node (text "cleanup"))

  -- `LaunchCleanupJob`.
  unfoldable pub launch_cleanup_job : Text → Text → World W → GoError × World W
  unfolding create
  launch_cleanup_job namespace node w = elim (c.api.get_node w.cluster node) [
    | err e ↦ (e, w)
    | ok info ↦ elim (c.api.get_job w.cluster namespace (cleanup_name node)) [
      | ok _ ↦ (nil, w)
      | err _ ↦ create namespace (cleanup_job namespace node info) w
    ]
  ]
