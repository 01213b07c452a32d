-- ===== src/Controller/Watch.antt =====
-- internal/controller/watcher.go and service.go: the handlers of the events, and the loop that polls.
use multi_network_interface.Prelude.{
  ℕ, zero, suc, ◌||◌, not, Option, none, some, List, [], ◌∷◌, if◌then◌else◌,
}
use multi_network_interface.Prelude.Int.{ℤ, pos, negsuc, ◌==ℤ◌}
use multi_network_interface.Prelude.Text.{Text, text, eqb, is_empty, strip_prefix}
use multi_network_interface.Errors.{GoError, is_nil}
use multi_network_interface.Controller.Objects.{label, Cr, Terminated, Pod}
use multi_network_interface.Controller.Cluster.{Controller, World}
use multi_network_interface.Controller.Reconcile.{reconcile, process_all, launch_cleanup_job}
use multi_network_interface.Controller.Finish.{process_jobs, apply_termination_summary}

-- The object of an event: a resource, the last state of one that was deleted unseen, an object that
-- has a name and a namespace, or any other.
pub data Event : Type 0 where
  resource : Cr → Event
  tombstone : Cr → Event
  named : Text → Text → Event
  unknown : Event

-- `unwrap`: the namespace and the name, which is all that the handlers use.
unfoldable pub unwrap : Event → Option (Text × Text)
unwrap (resource u) = some (u.namespace, u.name)
unwrap (tombstone u) = some (u.namespace, u.name)
unwrap (named namespace name) = some (namespace, name)
unwrap unknown = none

-- The last message that is not empty, and the last exit code.
unfoldable pub last_words : Text × ℤ → List (Option Terminated) → Text × ℤ
last_words w [] = w
last_words w (none ∷ rest) = last_words w rest
last_words w (some t ∷ rest) =
    last_words (if is_empty t.message then w.0 else t.message, t.exit_code) rest

-- The name behind `multinic-agent-`, if it is not empty.
abbrev behind_prefix : Option Text → Text
behind_prefix none = []
behind_prefix (some rest) = rest

-- The name of the node, and so of the resource, that a pod is taken to belong to.
unfoldable pub pod_node : Pod → Text
pod_node pod =
    if is_empty (label (text "multinic.io/node-name") pod.labels)
    then behind_prefix (strip_prefix (text "multinic-agent-") (label (text "job-name") pod.labels))
    else label (text "multinic.io/node-name") pod.labels

module _ {W : Type 0} (c : Controller W) where
  -- `handleCR`.
  unfoldable pub handle_cr : Event → World W → World W
  handle_cr e w = elim (unwrap e) [
    | none ↦ w
    | some (namespace, name) ↦ (reconcile c namespace name w).1
  ]

  -- `handlePod`.
  unfoldable pub handle_pod : Text → Pod → World W → World W
  handle_pod namespace pod w =
      let (msg, code) = last_words ([], negsuc 0) pod.containers in
      if not (eqb (label (text "app.kubernetes.io/name") pod.labels) (text "multinic-agent"))
        || (is_empty msg || (is_empty (pod_node pod) || code ==ℤ pos 0))
      then w
      else (apply_termination_summary c namespace (pod_node pod)
          (label (text "job-name") pod.labels) msg w).1

  -- `handleCRDelete`.
  unfoldable pub handle_cr_delete : Text → Event → World W → World W
  handle_cr_delete namespace e w = elim (unwrap e) [
    | none ↦ w
    | some (_, name) ↦ (launch_cleanup_job c namespace name w).1
  ]

  -- `RunOnce` of the service.
  unfoldable pub run_once : Text → World W → GoError × World W
  run_once namespace w =
      let r = process_all c namespace w in
      let s = process_jobs c namespace r.1 in if is_nil r.0 then s else r

  -- `Start` of the service, up to `n` ticks: it ends with the first error.
  unfoldable pub run_rounds : ℕ → Text → World W → GoError × World W
  run_rounds zero namespace w = run_once namespace w
  run_rounds (suc n) namespace w =
      let r = run_once namespace w in
      let rest = run_rounds n namespace r.1 in if is_nil r.0 then rest else r
