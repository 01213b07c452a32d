-- ===== src/Controller/Cluster.antt =====
-- internal/controller/reconciler.go: the calls of the Kubernetes API, and the deletion of jobs and the
-- update of a status that are made of them. The API is a parameter: a state W stands for the cluster,
-- a read is a function of it, and a write returns an error with the state that it leaves.
use multi_network_interface.Prelude.{Option, none, some, List, [], ◌∷◌, ◌++◌, if◌then◌else◌}
use multi_network_interface.Prelude.Int.{ℤ, pos, leb_ℤ}
use multi_network_interface.Prelude.Text.{Text, text}
use multi_network_interface.Errors.{GoError, nil, is_nil, Result}
use multi_network_interface.Controller.Objects.{CrStatus, Cr, Node, Pod}
use multi_network_interface.Controller.Jobs.{Job}
use multi_network_interface.Controller.Entries.{Failure, Outcome}

pub record Api (W : Type 0) : Type 0 where
  pub get_cr : W → Text → Text → Result Cr
  pub list_crs : W → Text → Result (List Cr)
  pub update_status : Cr → W → GoError × W
  pub update : Cr → W → GoError × W
  pub get_node : W → Text → Result Node
  pub get_job : W → Text → Text → Result Job
  pub list_jobs : W → Text → Text → Result (List Job)
  pub create_job : Text → Job → W → GoError × W
  pub delete_job : Text → Text → W → GoError × W
  pub list_pods : W → Text → Text → Result (List Pod)

-- The JSON decoder on the two lists of a message, and the hash of a spec.
pub record Decoder : Type 0 where
  pub failures : Text → Result (List Failure)
  pub results : Text → Result (List Outcome)
  pub sha256_hex : Text → Text

-- The fields of `Controller`, but for the clients.
pub record Settings : Type 0 where
  pub agent_image : Text
  pub image_pull_policy : Text
  pub service_account : Text
  pub node_cr_namespace : Text
  pub job_ttl_seconds : Option ℤ
  pub job_delete_delay_seconds : ℤ

-- A deletion that a goroutine makes after a delay.
pub record Pending : Type 0 where
  pub delay_seconds : ℤ
  pub namespace : Text
  pub name : Text

pub record World (W : Type 0) : Type 0 where
  pub cluster : W
  pub pending : List Pending

-- The controller with what it uses.
pub record Controller (W : Type 0) : Type 0 where
  pub api : Api W
  pub decoder : Decoder
  pub settings : Settings

-- `computeSpecHash`.
unfoldable pub compute_spec_hash : Decoder → Cr → Text
compute_spec_hash d u = elim u.spec_json [ none ↦ [] | some json ↦ d.sha256_hex json ]

abbrev agent_label : Text
agent_label = text "app.kubernetes.io/name=multinic-agent"

-- The selectors of the jobs of the agent, of those for a node, and of the pods of a job.
abbrev pub agent_jobs : Text
agent_jobs = agent_label

abbrev pub jobs_of_node : Text → Text
jobs_of_node node = agent_label ++ (text ",multinic.io/node-name=" ++ node)

abbrev pub pods_of_job : Text → Text
pods_of_job job = text "job-name=" ++ job

module _ {W : Type 0} (c : Controller W) where
  -- `deleteJob`.
  unfoldable pub delete_job : Text → Text → World W → GoError × World W
  delete_job namespace name w =
      let r = c.api.delete_job namespace name w.cluster in (r.0, record w { cluster = r.1 })

  -- `scheduleJobDeletion`: now, or by a goroutine after the delay.
  unfoldable pub schedule_job_deletion : Text → Text → World W → World W
  schedule_job_deletion namespace name w =
      let deleted = (delete_job namespace name w).1 in
      if leb_ℤ c.settings.job_delete_delay_seconds (pos 0) then deleted else record w {
        pending =
            w.pending
            ++ record {
              delay_seconds = c.settings.job_delete_delay_seconds;
              namespace = namespace;
              name = name;
            }
              ∷ [];
      }

  -- What a goroutine of `scheduleJobDeletion` does when its time has come.
  unfoldable pub expire : Pending → World W → World W
  expire p w = (delete_job p.namespace p.name w).1

  -- `updateCRStatus`, with the merge of the keys as a function of the status.
  unfoldable pub update_cr_status : Cr → (CrStatus → CrStatus) → World W → GoError × World W
  update_cr_status u merge w =
      let obj = record u { status = merge u.status } in
      let first = c.api.update_status obj w.cluster in
      let second = c.api.update obj first.1 in
      if is_nil first.0
      then (nil, record w { cluster = first.1 })
      else (second.0, record w { cluster = second.1 })
