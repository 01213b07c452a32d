-- ===== src/Controller/Reconcile/Laws.antt =====
-- internal/controller/reconciler.go: the job that Reconcile leaves behind.
use multi_network_interface.Prelude.{
  ◌≡◌, ◌≢◌, refl, ap, ◌⊎◌, inl, inr, true, false, List, [], ◌∷◌, arith, Bool-cases, if◌then◌else◌,
}
use multi_network_interface.Prelude.Int.{pos, leb_ℤ}
use multi_network_interface.Prelude.Text.{Text, eqb, eqb_iff}
use multi_network_interface.Errors.{GoError, nil, is_nil, is_nil_lem, Result, ok, err, Result-cases}
use multi_network_interface.Controller.Objects.{Cr, Node}
use multi_network_interface.Controller.Jobs.{Job, build_agent_job}
use multi_network_interface.Controller.Cluster.{
  Controller, Api, World, delete_job, schedule_job_deletion, update_cr_status,
}
use multi_network_interface.Controller.Reconcile.{
  node_of, is_settled, job_name, apply_job, in_progress, delete_stale, created, create, ensured,
  ensure_job, schedule, mismatch, with_node, with_cr, reconcile,
}

-- The cluster has a job with the name.
abbrev pub Has : {W : Type 0} → Api W → W → Text → Text → Type 0
Has api w namespace name = (j : Job) × (api.get_job w namespace name ≡ ok j)

-- What the API promises of jobs: one that was created is there, and one that is there stays when one
-- with another name is deleted; and a resource that cannot be read gives an error.
pub record KeepsJobs {W : Type 0} (api : Api W) : Type 0 where
  pub created :
      (namespace : Text) (job : Job) (w : W)
      → (api.create_job namespace job w).0 ≡ nil
      → Has api (api.create_job namespace job w).1 namespace job.name
  pub real :
      (namespace name : Text) (w : W) (x : GoError)
      → api.get_cr w namespace name ≡ err x
      → is_nil x ≡ false
  pub kept :
      (namespace name other : Text) (w : W)
      → other ≢ name
      → Has api w namespace name
      → Has api (api.delete_job namespace other w).1 namespace name

-- What a call that returned nil has done for the resource.
abbrev pub IsServed : {W : Type 0} → Controller W → Text → Cr → World W → World W → Type 0
IsServed c namespace u w w' =
    ((is_settled u ≡ true) × (w' ≡ w))
    ⊎ ((is_settled u ≡ false) × Has c.api w'.cluster namespace (job_name (node_of u) u.generation))

module _ {W : Type 0} (c : Controller W) (keeps : KeepsJobs c.api) where
  schedule_job_deletion-Has :
      (namespace name other : Text) (w : World W)
      → other ≢ name
      → Has c.api w.cluster namespace name
      → Has c.api (schedule_job_deletion c namespace other w).cluster namespace name
  unfolding schedule_job_deletion delete_job
  schedule_job_deletion-Has namespace name other w ne h =
      elim (Bool-cases (leb_ℤ c.settings.job_delete_delay_seconds (pos 0))) [
        | inl now ↦ rw now (keeps.kept namespace name other w.cluster ne h)
        | inr later ↦ rw later h
      ]

  stale-Has :
      (namespace name : Text) (job : Job) (w : World W)
      → Has c.api w.cluster namespace name
      → Has c.api
          (if eqb job.name name then w else schedule_job_deletion c namespace job.name w).cluster
          namespace
          name
  stale-Has namespace name job w h = elim (Bool-cases (eqb job.name name)) [
    | inl same ↦ rw same h
    | inr other ↦
        let ne : job.name ≢ name = λ e. ground (arith, (eqb_iff job.name name).1 e) in
        rw other (schedule_job_deletion-Has namespace name job.name w ne h)
  ]

  delete_stale-Has :
      (namespace name : Text) (jobs : List Job) (w : World W)
      → Has c.api w.cluster namespace name
      → Has c.api (delete_stale c namespace name jobs w).cluster namespace name
  unfolding delete_stale
  delete_stale-Has namespace name [] w h = h
  delete_stale-Has namespace name (job ∷ jobs) w h =
      delete_stale-Has namespace name jobs
        (if eqb job.name name then w else schedule_job_deletion c namespace job.name w)
        (stale-Has namespace name job w h)

  created-Has :
      (namespace node name : Text) (r : GoError × World W)
      → (r.0 ≡ nil → Has c.api r.1.cluster namespace name)
      → (created c namespace node name r).0 ≡ nil
      → Has c.api (created c namespace node name r).1.cluster namespace name
  unfolding created
  created-Has namespace node name (e, w) done h = elim (Bool-cases (is_nil e)) [
    | inl fine ↦ rw fine (delete_stale-Has namespace name _ w (done (is_nil_lem e fine)))
    | inr bad ↦ absurd (ground (arith, ap is_nil h))
  ]

  ensured-Has :
      (namespace node : Text) (job : Job) (w : World W) (r : Result Job)
      → c.api.get_job w.cluster namespace job.name ≡ r
      → (ensured c namespace node job w r).0 ≡ nil
      → Has c.api (ensured c namespace node job w r).1.cluster namespace job.name
  unfolding ensured create
  ensured-Has namespace node job w (ok j) e h = (j, e)
  ensured-Has namespace node job w (err x) e h =
      created-Has namespace node job.name (create c namespace job w)
        (keeps.created namespace job w.cluster) h

  ensure_job-Has :
      (namespace node : Text) (job : Job) (w : World W)
      → (ensure_job c namespace node job w).0 ≡ nil
      → Has c.api (ensure_job c namespace node job w).1.cluster namespace job.name
  unfolding ensure_job
  ensure_job-Has namespace node job w h =
      ensured-Has namespace node job w (c.api.get_job w.cluster namespace job.name) refl h

  with_node-Has :
      (namespace : Text) (u : Cr) (r : Result Node) (w : World W)
      → (with_node c namespace u r w).0 ≡ nil
      → Has c.api
          (with_node c namespace u r w).1.cluster
          namespace
          (job_name (node_of u) u.generation)
  unfolding with_node schedule apply_job build_agent_job
  with_node-Has namespace u (err e) w h = absurd (ground (arith, ap is_nil h))
  with_node-Has namespace u (ok node) w h = elim (Bool-cases (mismatch c u node)) [
    | inl other ↦ absurd (ground (arith, ap is_nil h))
    | inr same ↦ rw same (
        ensure_job-Has namespace (node_of u) (apply_job c namespace u node)
          (update_cr_status c u (in_progress c u (apply_job c namespace u node)) w).1
          (rw same at h))
  ]

  with_cr-IsServed :
      (namespace : Text) (u : Cr) (w : World W)
      → (with_cr c namespace (ok u) w).0 ≡ nil
      → IsServed c namespace u w (with_cr c namespace (ok u) w).1
  unfolding with_cr
  with_cr-IsServed namespace u w h = elim (Bool-cases (is_settled u)) [
    | inl settled ↦ rw settled (inl (refl, refl))
    | inr open_state ↦ rw open_state (
        inr (
          refl,
          with_node-Has namespace u (c.api.get_node w.cluster (node_of u)) w (rw open_state at h),
        ))
  ]

  -- If Reconcile returns nil, the resource is there, and either it was done with the spec that it has,
  -- and nothing has changed, or the cluster has the job for its node and its generation afterwards,
  -- also when jobs of other generations were deleted, at once or later.
  pub reconcile-IsServed :
      (namespace name : Text) (w : World W)
      → (reconcile c namespace name w).0 ≡ nil
      → (u : Cr) × (c.api.get_cr w.cluster namespace name ≡ ok u)
        × IsServed c namespace u w (reconcile c namespace name w).1
  unfolding reconcile
  reconcile-IsServed namespace name w h =
      elim (Result-cases (c.api.get_cr w.cluster namespace name)) [
        | inl (u, e) ↦ (u, e, rw e (with_cr-IsServed namespace u w (rw e at h)))
        | inr (x, e) ↦ absurd (ground (arith, keeps.real namespace name w.cluster x e, ap is_nil h))
      ]
