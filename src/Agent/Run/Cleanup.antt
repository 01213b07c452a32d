-- ===== src/Agent/Run/Cleanup.antt =====
-- cmd/agent/main.go: the job that cleans up, and when `Run` returns nil.
use multi_network_interface.Prelude.{ℕ, ◌+◌, ◌≡◌, refl, ap, ◌∙◌, true, false, List, length}
use multi_network_interface.Prelude.Text.{Text, text, eqb}
use multi_network_interface.Errors.{nil, Result, ok, err}
use multi_network_interface.Host.Queries.{list_netplan_files}
use multi_network_interface.Configure.{ubuntu}
use multi_network_interface.Delete.{Deleted, Input, netplan_dir, is_multinic_netplan_file, only}
use multi_network_interface.Delete.Orphans.{execute_delete}
use multi_network_interface.Delete.Laws.Full.{execute_delete-AccountsFor}
use multi_network_interface.Polling.{Float}
use multi_network_interface.Config.{Config}
use multi_network_interface.Agent.{Application, Setup, parts_of}
use multi_network_interface.Agent.Run.{
  returned, host_text, cleaned_up, run_job, as_returned, run_on, run,
}

module _ {W F : Type 0} (setup : Setup W F) where
  -- What the job asks the use case for.
  abbrev pub cleanup_input : Input
  cleanup_input = record { node_name = host_text setup setup.hostname; full_cleanup = false }

  cleaned_up-ok :
      (s : Application W) (r : Result Deleted × W) (out : Deleted)
      → r.0 ≡ ok out
      → (cleaned_up setup s r).0 ≡ nil
  unfolding cleaned_up
  cleaned_up-ok s (ok o, w) out h = refl
  cleaned_up-ok s (err e, w) out h = absurd (cc)

module _ {W F : Type 0} (setup : Setup W F) (exp : Float F) where
  -- On Ubuntu, if the directory of netplan files can be listed, the job that cleans up is a success
  -- whatever the rollbacks do: each multinic file in it is counted as deleted or has an error, and
  -- the errors are not returned.
  pub run-cleanup :
      (n : ℕ) (c : Config F) (s : Application W) (files : List Text)
      → eqb c.agent.run_mode (text "job") ≡ true
      → eqb (setup.services.getenv (text "AGENT_ACTION")) (text "cleanup") ≡ true
      → setup.services.detect_os ≡ ok ubuntu
      → list_netplan_files (setup.services.host s.world) netplan_dir ≡ ok files
      → ((run setup exp n c s).0 ≡ returned nil)
        × (out : Deleted) × ((execute_delete (parts_of setup) (cleanup_input setup) s.world).0
            ≡ ok out)
        × (out.total_deleted + length out.errors ≡ length (only is_multinic_netplan_file files))
  unfolding run run_on run_job as_returned
  run-cleanup n c s files job action detected listed =
      let (out, path, sum) =
        execute_delete-AccountsFor (parts_of setup) s.world (cleanup_input setup) files detected
          action listed in
      let done =
        cleaned_up-ok setup s (execute_delete (parts_of setup) (cleanup_input setup) s.world) out
          path in
      (
        ap (λ r. (run_on setup exp n c s r).0) detected ∙ rw (job, action, done) refl,
        out,
        path,
        sum,
      )
