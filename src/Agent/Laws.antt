-- ===== src/Agent/Laws.antt =====
-- cmd/agent/main.go: what a cycle reports and counts.
use multi_network_interface.Prelude.{
  ℕ, zero, suc, ◌+◌, ◌≡◌, ◌≤◌, refl, ap, ◌∙◌, ◌↔◌, ◌⊎◌, true, false, List, length, arith,
}
use multi_network_interface.Prelude.Text.{Text, text}
use multi_network_interface.Errors.{GoError, is_nil, Result, ok, err}
use multi_network_interface.Entities.Interface.{NetworkInterface}
use multi_network_interface.Naming.{Naming}
use multi_network_interface.Configure.{OsType}
use multi_network_interface.Configure.Execute.{Output}
use multi_network_interface.Configure.Execute.Laws.{execute_counts}
use multi_network_interface.Delete.{Deleted}
use multi_network_interface.Delete.Orphans.{execute_delete}
use multi_network_interface.Health.{
  HealthService, increment_processed_vms, increment_failed_configs,
}
use multi_network_interface.Agent.{
  Application, Setup, parts_of, resolve_node_name, complete_on_partial, counts_error, result_error,
  repeated, count_health, deleted_or_error, reported, cycle_for, process_network_configurations,
}

-- When a cycle with this output is a success.
abbrev pub IsAccepted : Text → Output → Type 0
IsAccepted policy out =
    (out.failed_count ≡ 0) ⊎ ((1 ≤ out.processed_count) × (complete_on_partial policy ≡ true))

result_error_iff :
    (policy : Text) (out : Output)
    → (is_nil (result_error policy out) ≡ true) ↔ IsAccepted policy out
unfolding result_error counts_error
result_error_iff policy out = ground arith

-- The two counters grow by the two counts.
abbrev pub HasCounted : Output → HealthService → HealthService → Type 0
HasCounted out before after =
    (after.processed_vms ≡ before.processed_vms + out.processed_count)
    × (after.failed_configs ≡ before.failed_configs + out.failed_count)

repeated-processed :
    (n : ℕ) (h : HealthService)
    → ((repeated n increment_processed_vms h).processed_vms ≡ h.processed_vms + n)
      × ((repeated n increment_processed_vms h).failed_configs ≡ h.failed_configs)
unfolding repeated increment_processed_vms
repeated-processed zero h = (omega arith, refl)
repeated-processed (suc n) h =
    let (p, f) = repeated-processed n (increment_processed_vms h) in (omega (arith, p), f)

repeated-failed :
    (n : ℕ) (h : HealthService)
    → ((repeated n increment_failed_configs h).processed_vms ≡ h.processed_vms)
      × ((repeated n increment_failed_configs h).failed_configs ≡ h.failed_configs + n)
unfolding repeated increment_failed_configs
repeated-failed zero h = (refl, omega arith)
repeated-failed (suc n) h =
    let (p, f) = repeated-failed n (increment_failed_configs h) in (p, omega (arith, f))

count_health-HasCounted : (out : Output) (h : HealthService) → HasCounted out h (count_health out h)
unfolding count_health
count_health-HasCounted out h =
    let (p, f) = repeated-processed out.processed_count h in
    let (q, g) =
      repeated-failed out.failed_count (repeated out.processed_count increment_processed_vms h) in
    (q ∙ p, g ∙ ap (λ n. n + out.failed_count) f)

module _ {W F : Type 0} (setup : Setup W F) where
  -- What a cycle that begins in a state does, with an output of the use case.
  abbrev pub Reports : Application W → Output → GoError × Application W → Type 0
  Reports s out r =
      ((is_nil r.0 ≡ true)
        ↔ IsAccepted (setup.services.getenv (text "JOB_COMPLETE_ON_PARTIAL_FAILURE")) out)
      × HasCounted out s.health r.1.health

  reported-Reports :
      (node : Text) (deleted : Deleted) (s : Application W) (out : Output)
      (r : Result Output × Naming × W)
      → r.0 ≡ ok out
      → Reports s out (reported setup node deleted s r)
  unfolding reported
  reported-Reports node deleted s out (err e, naming, w) h = absurd (cc)
  reported-Reports node deleted s out (ok o, naming, w) h =
      let same : out ≡ o = cc in
      rw same (
        result_error_iff (setup.services.getenv (text "JOB_COMPLETE_ON_PARTIAL_FAILURE")) o,
        count_health-HasCounted o s.health,
      )

  -- What the cycle does with the output of the use case.
  pub cycle-Reports :
      (s : Application W) (node : Text) (os : OsType) (jobs : List NetworkInterface)
      → resolve_node_name setup.services.getenv setup.hostname ≡ ok node
      → setup.services.detect_os ≡ ok os
      → setup.services.all_node_interfaces node ≡ ok jobs
      → (out : Output) × (out.processed_count + out.failed_count ≡ length jobs)
        × Reports s out (process_network_configurations setup s)
  unfolding process_network_configurations cycle_for
  cycle-Reports s node os jobs named detected listed =
      let deletion =
        execute_delete (parts_of setup) (record { node_name = node; full_cleanup = false })
          s.world in
      let (out, path, sum, total, _, _) =
        execute_counts setup.net setup.services setup.float setup.retries setup.multiplier node
          s.naming deletion.1 os jobs detected listed in
      rw named (out, sum ∙ total, reported-Reports node (deleted_or_error deletion.0) s out _ path)
