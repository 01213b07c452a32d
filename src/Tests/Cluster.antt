-- ===== src/Tests/Cluster.antt =====
-- A cluster with one node and one resource; its state is the names of the jobs that it has.
use multi_network_interface.Prelude.{
  ◌≡◌, ◌≢◌, refl, sym, ◌∙◌, Bool, true, false, ◌||◌, Option, none, some, List, [], ◌∷◌, arith,
  Bool-cases, inl, inr, if◌then◌else◌,
}
use multi_network_interface.Prelude.Int.{pos}
use multi_network_interface.Prelude.Text.{
  Text, text, eqb, eqb_iff, itoa, itoa_ℤ, trim_space, trim_left,
}
use multi_network_interface.Errors.{nil, plain, Result, ok, err}
use multi_network_interface.Controller.Objects.{
  Value, text_value, int64_value, Dict, find, label, Cr, Node, Pod,
}
use multi_network_interface.Controller.Jobs.{Job, JobParams, build_agent_job}
use multi_network_interface.Controller.Entries.{Failure, failure_entries}
use multi_network_interface.Controller.Cluster.{Api, Controller, World, update_cr_status}
use multi_network_interface.Controller.Reconcile.{
  node_of, job_name, apply_job, cleanup_name, reconcile, is_settled, instance_of, schedule,
}
use multi_network_interface.Controller.Reconcile.Laws.{KeepsJobs, Has, IsServed, reconcile-IsServed}
use multi_network_interface.Controller.Finish.{
  newest_of_pods, get_job_termination_message, failures_in,
}
use multi_network_interface.Controller.Watch.{handle_pod}
use multi_network_interface.Controller.Laws.Failures.{AreMarked, failure_entries-AreMarked}
use multi_network_interface.Controller.Laws.Pods.{handle_pod-misses}

abbrev pub params : JobParams
params = record {
  namespace = text "ns";
  name = text "job";
  image = text "agent:1";
  pull_policy = text "Always";
  service_account_name = text "agent";
  node_name = text "n1";
  node_cr_namespace = text "ns";
  ttl_seconds_after_done = none;
  action = [];
}

job : Job
job = build_agent_job (text "Ubuntu 22.04") params

abbrev pub cr : Cr
cr = record {
  namespace = text "ns";
  name = text "n1";
  labels = [];
  generation = pos 2;
  node_name = text "n1";
  instance_id = [];
  interfaces = none;
  spec_json = none;
  status = record {
    state = text "InProgress";
    observed_generation = pos 2;
    observed_spec_hash = [];
    last_job_name = [];
    conditions = [];
    interface_statuses = [];
    node_ready = true;
  };
}

abbrev info : Node
info = record {
  system_uuid = text "u";
  os_image = text "Ubuntu 22.04";
  conditions = [];
  addresses = [];
}

abbrev missing : {A : Type 0} → Result A
missing = err (plain (text "not found"))

unfoldable pub has : Text → List Text → Bool
has name [] = false
has name (n ∷ ns) = eqb n name || has name ns

remove : Text → List Text → List Text
remove name [] = []
remove name (n ∷ ns) = let rest = remove name ns in if eqb n name then rest else n ∷ rest

unfoldable pub api : Api (List Text)
unfolding job remove
api = record {
  get_cr = λ w namespace name. if eqb name (text "n1") then ok cr else missing;
  list_crs = λ w namespace. ok (cr ∷ []);
  update_status = λ u w. (nil, w);
  update = λ u w. (nil, w);
  get_node = λ w name. ok info;
  get_job = λ w namespace name. if has name w then ok job else missing;
  list_jobs = λ w namespace selector. ok [];
  create_job = λ namespace j w. (nil, j.name ∷ w);
  delete_job = λ namespace name w. (nil, remove name w);
  list_pods = λ w namespace selector. ok [];
}

abbrev pub controller : Controller (List Text)
controller = record {
  api = api;
  decoder = record { failures = λ t. missing; results = λ t. missing; sha256_hex = λ t. t };
  settings = record {
    agent_image = text "agent:1";
    image_pull_policy = text "Always";
    service_account = text "agent";
    node_cr_namespace = text "ns";
    job_ttl_seconds = none;
    job_delete_delay_seconds = pos 30;
  };
}

abbrev pub world : World (List Text)
world = record { cluster = text "multinic-agent-cleanup-n1" ∷ []; pending = [] }

has-remove :
    (name other : Text) (ns : List Text)
    → other ≢ name
    → has name ns ≡ true
    → has name (remove other ns) ≡ true
unfolding has remove
has-remove name other [] ne h = h
has-remove name other (n ∷ ns) ne h = elim (Bool-cases (eqb n other)) [
  | inl same ↦
      let differs : eqb n name ≡ true → ⊥ =
        λ e. ne (sym ((eqb_iff n other).0 same) ∙ (eqb_iff n name).0 e) in
      rw same (has-remove name other ns ne (ground arith))
  | inr different ↦ rw different (ground (arith, has-remove name other ns ne))
]

has-Has : (name : Text) (ns : List Text) → has name ns ≡ true → Has api ns (text "ns") name
unfolding api
has-Has name ns h = (job, rw h)

Has-has : (namespace name : Text) (ns : List Text) → Has api ns namespace name → has name ns ≡ true
unfolding api
Has-has namespace name ns (j, e) = ground arith

api-KeepsJobs : KeepsJobs api
unfolding api has
api-KeepsJobs = record {
  created = λ namespace j w h. (job, ground (arith, (eqb_iff j.name j.name).1 refl));
  real = λ namespace name w x e. ground arith;
  kept = λ namespace name other w ne h.
      (job, rw (has-remove name other w ne (Has-has namespace name w h)));
}

reconciled : (reconcile controller (text "ns") (text "n1") world).0 ≡ nil
unfolding reconcile api eqb is_settled instance_of label find schedule has update_cr_status
    apply_job build_agent_job job_name node_of
reconciled = refl

reconcile-IsServed_example :
    (u : Cr) × (controller.api.get_cr world.cluster (text "ns") (text "n1") ≡ ok u)
    × IsServed controller (text "ns") u world (reconcile controller (text "ns") (text "n1") world).1
reconcile-IsServed_example =
    reconcile-IsServed controller api-KeepsJobs (text "ns") (text "n1") world reconciled

abbrev pod : Pod
pod = record { labels = (text "job-name", text "multinic-agent-n1-g2") ∷ []; containers = [] }

handle_pod-misses_example : handle_pod controller (text "ns") pod world ≡ world
unfolding api has eqb node_of find label cleanup_name job_name apply_job build_agent_job itoa itoa_ℤ
    get_job_termination_message newest_of_pods failures_in trim_space trim_left
handle_pod-misses_example =
    handle_pod-misses controller (text "ns") cr info pod world (plain (text "not found")) refl refl
      refl

abbrev elements : List (Option (Dict Value))
elements =
    some ((text "id", int64_value (pos 2)) ∷ [])
    ∷ some ((text "macAddress", text_value (text "AA")) ∷ [])
    ∷ none
    ∷ []

abbrev failures : List Failure
failures =
    record {
      id = pos 7;
      mac = text " aa ";
      name = [];
      error_type = text "NETWORK";
      reason = text "not up";
    }
    ∷ []

failure_entries-AreMarked_example :
    AreMarked failures 0 elements
      (failure_entries (text "JobFailed") (text "JobPartialSuccess") failures 0 elements)
failure_entries-AreMarked_example =
    failure_entries-AreMarked (text "JobFailed") (text "JobPartialSuccess") failures 0 elements
