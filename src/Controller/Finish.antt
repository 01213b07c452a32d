-- ===== src/Controller/Finish.antt =====
-- internal/controller/reconciler.go: ProcessJobs, which writes what has become of a job into the status
-- of its resource, and ApplyTerminationSummary.
use multi_network_interface.Prelude.{
  Bool, ◌&&◌, ◌||◌, Option, none, some, List, [], ◌∷◌, length, ltb, if◌then◌else◌,
}
use multi_network_interface.Prelude.Int.{ℤ, pos, ltb_ℤ}
use multi_network_interface.Prelude.Text.{Text, text, eqb, is_empty, trim_space, equal_fold}
use multi_network_interface.Errors.{GoError, nil, Result, ok, err}
use multi_network_interface.Controller.Objects.{label, StatusEntry, CrStatus, Cr, Terminated, Pod}
use multi_network_interface.Controller.Jobs.{Job}
use multi_network_interface.Controller.Entries.{
  Failure, Outcome, spec_of, build_interface_statuses, failure_entries, outcome_entries,
}
use multi_network_interface.Controller.Cluster.{
  Controller, World, schedule_job_deletion, update_cr_status, agent_jobs, pods_of_job,
}

-- The loop over the containers: the last message so far, with its time.
unfoldable pub newest : Text × ℤ → List (Option Terminated) → Text × ℤ
newest best [] = best
newest best (none ∷ rest) = newest best rest
newest best (some t ∷ rest) =
    newest
      (if is_empty best.0 || ltb_ℤ best.1 t.finished_at then (t.message, t.finished_at) else best)
      rest

unfoldable pub newest_of_pods : Text × ℤ → List Pod → Text × ℤ
newest_of_pods best [] = best
newest_of_pods best (p ∷ ps) = newest_of_pods (newest best p.containers) ps

-- The status with a condition `Ready`, a state and entries.
unfoldable pub ready : Text → Text → Text → List StatusEntry → CrStatus → CrStatus
ready state truth reason entries s = record s {
  state = state;
  conditions = record { kind = text "Ready"; status = truth; reason = reason } ∷ [];
  interface_statuses = entries;
}

-- A decoded list, if there is one with elements.
abbrev pub some_of {ℓ} : {A : Type ℓ} → Result (List A) → List A
some_of (ok l) = l
some_of (err _) = []

module _ {W : Type 0} (c : Controller W) where
  -- `getJobTerminationMessage`.
  unfoldable pub get_job_termination_message : Text → Text → W → Text
  get_job_termination_message namespace job w =
      elim (c.api.list_pods w namespace (pods_of_job job)) [
        | err _ ↦ []
        | ok pods ↦ (newest_of_pods ([], pos 0) pods).0
      ]

  -- The failures in a message that is not blank.
  unfoldable pub failures_in : Text → List Failure
  failures_in msg = if is_empty (trim_space msg) then [] else some_of (c.decoder.failures msg)

  unfoldable pub results_in : Text → List Outcome
  results_in msg = if is_empty (trim_space msg) then [] else some_of (c.decoder.results msg)

  -- The status for a job that succeeded, by the failures and the results in its message.
  unfoldable pub succeeded_status : Cr → List Failure → List Outcome → CrStatus → CrStatus
  succeeded_status u (f ∷ fs) results =
      ready (text "Failed") (text "False") (text "JobFailedPartial") (
        failure_entries (text "JobFailedPartial") (text "JobSucceeded") (f ∷ fs) 0
          (spec_of u.interfaces))
  succeeded_status u [] (r ∷ rs) =
      ready (text "Configured") (text "True") (text "JobSucceeded")
        (outcome_entries (spec_of u.interfaces) 0 (r ∷ rs))
  succeeded_status u [] [] =
      ready (text "Configured") (text "True") (text "JobSucceeded")
        (build_interface_statuses u (text "Configured") (text "JobSucceeded"))

  -- The reason for the failure of a job.
  unfoldable pub failed_reason : Cr → List Failure → Text
  failed_reason u failures =
      if ltb (length failures) (length (spec_of u.interfaces))
      then text "JobFailedPartial"
      else text "JobFailed"

  or_all_failed : Cr → Text → List StatusEntry → List StatusEntry
  or_all_failed u reason [] = build_interface_statuses u (text "Failed") reason
  or_all_failed u reason (e ∷ es) = e ∷ es

  -- The status for a job that failed, by the failures in its message.
  unfoldable pub failed_status : Cr → List Failure → CrStatus → CrStatus
  unfolding or_all_failed
  failed_status u [] =
      ready (text "Failed") (text "False") (text "JobFailed")
        (build_interface_statuses u (text "Failed") (text "JobFailed"))
  failed_status u (f ∷ fs) = ready (text "Failed") (text "False") (failed_reason u (f ∷ fs)) (
      or_all_failed u (failed_reason u (f ∷ fs)) (
        failure_entries (text "JobFailed") (text "JobPartialSuccess") (f ∷ fs) 0
          (spec_of u.interfaces)))

  -- The update of the status, and the deletion of the job.
  settle : Text → Job → Cr → (CrStatus → CrStatus) → World W → World W
  settle namespace job u merge w =
      schedule_job_deletion c namespace job.name (update_cr_status c u merge w).1

  on_success : Text → Job → Cr → World W → World W
  unfolding settle
  on_success namespace job u w =
      let msg = get_job_termination_message namespace job.name w.cluster in
      if eqb u.status.state (text "Configured")
      then w
      else if eqb (label (text "multinic.io/action") job.labels) (text "cleanup")
      then schedule_job_deletion c namespace job.name w
      else settle namespace job u (succeeded_status u (failures_in msg) (results_in msg)) w

  on_failure : Text → Job → Cr → World W → World W
  unfolding settle
  on_failure namespace job u w =
      let msg = get_job_termination_message namespace job.name w.cluster in
      if eqb u.status.state (text "Failed")
      then w
      else settle namespace job u (failed_status u (failures_in msg)) w

  on_cr : Text → Job → Result Cr → World W → World W
  unfolding on_success on_failure
  on_cr namespace job (err _) w =
      if eqb (label (text "multinic.io/action") job.labels) (text "cleanup")
        && (ltb_ℤ (pos 0) job.succeeded || ltb_ℤ (pos 0) job.failed)
      then schedule_job_deletion c namespace job.name w
      else w
  on_cr namespace job (ok u) w =
      if ltb_ℤ (pos 0) job.succeeded
      then on_success namespace job u w
      else if ltb_ℤ (pos 0) job.failed
      then on_failure namespace job u w
      else w

  unfoldable pub is_cleanup : Job → Bool
  is_cleanup job =
      equal_fold (trim_space (label (text "multinic.io/action") job.labels)) (text "cleanup")

  unfoldable pub job_node : Job → Text
  job_node job = label (text "multinic.io/node-name") job.labels

  -- One round of `ProcessJobs`.
  unfoldable pub process_job : Text → Job → World W → World W
  unfolding on_cr
  process_job namespace job w =
      if is_cleanup job || is_empty (job_node job)
      then w
      else on_cr namespace job (c.api.get_cr w.cluster namespace (job_node job)) w

  unfoldable pub process_each : Text → List Job → World W → World W
  process_each namespace [] w = w
  process_each namespace (job ∷ jobs) w = process_each namespace jobs (process_job namespace job w)

  -- `ProcessJobs`.
  unfoldable pub process_jobs : Text → World W → GoError × World W
  process_jobs namespace w = elim (c.api.list_jobs w.cluster namespace agent_jobs) [
    | err e ↦ (e, w)
    | ok jobs ↦ (nil, process_each namespace jobs w)
  ]

  summary_status : Text → Cr → List Failure → CrStatus → CrStatus
  summary_status job u failures s =
      record (ready (text "Failed") (text "False") (failed_reason u failures)
        (failure_entries (text "JobFailed") (text "JobPartialSuccess") failures 0
          (spec_of u.interfaces))
        s) { last_job_name = job }

  summarised : Text → Cr → Result (List Failure) → World W → GoError × World W
  unfolding summary_status
  summarised job u (err _) w = (nil, w)
  summarised job u (ok failures) w = update_cr_status c u (summary_status job u failures) w

  -- `ApplyTerminationSummary`.
  unfoldable pub apply_termination_summary : Text → Text → Text → Text → World W → GoError × World W
  unfolding summarised
  apply_termination_summary namespace node job msg w =
      elim (c.api.get_cr w.cluster namespace node) [
        | err e ↦ (e, w)
        | ok u ↦ summarised job u (c.decoder.failures msg) w
      ]
