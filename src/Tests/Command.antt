-- ===== src/Tests/Command.antt =====
-- The controller's command on a few environments, with the cluster of one node.
use multi_network_interface.Prelude.{◌≡◌, refl, Option, none, some, List, [], ◌∷◌, if◌then◌else◌}
use multi_network_interface.Prelude.Int.{ℤ, pos, negsuc, wrap_ℤ, quot_ℤ}
use multi_network_interface.Prelude.Text.{Text, text, eqb, itoa, itoa_ℤ}
use multi_network_interface.Controller.Watch.{resource, unwrap, handle_cr}
use multi_network_interface.Controller.Objects.{find, label}
use multi_network_interface.Controller.Jobs.{build_agent_job}
use multi_network_interface.Controller.Reconcile.{
  node_of, job_name, apply_job, reconcile, is_settled, instance_of, schedule, delete_stale,
}
use multi_network_interface.Controller.Cluster.{World, update_cr_status}
use multi_network_interface.Controller.Command.{
  finished, crashed, Exit, Notice, cr_applied, read_command, handle, main, serve, watch,
}
use multi_network_interface.Tests.Service.{variables}
use multi_network_interface.Tests.Cluster.{api, has, controller, cr, world}

abbrev durations : Text → Option ℤ
durations t =
    if eqb t (text "15s")
    then some (pos 15_000_000_000)
    else if eqb t (text "3000000000s")
    then some (pos 3_000_000_000_000_000_000)
    else none

abbrev polling : List (Text × Text)
polling =
    (text "CONTROLLER_MODE", text "poll")
    ∷ (text "POLL_INTERVAL", text "soon")
    ∷ (text "CONTROLLER_JOB_TTL", text "3000000000")
    ∷ []

abbrev ends : List (Text × Text) → List Notice → Exit × World (List Text)
ends env notices = main (variables env) durations controller.api controller.decoder 3 notices world

default_interval : (read_command (variables []) durations).interval ≡ pos 15_000_000_000
unfolding read_command eqb
default_interval = refl

-- The seconds are kept in 32 bits.
wrapped_ttl :
    (read_command (variables polling) durations).settings.job_ttl_seconds
    ≡ some (negsuc 1_294_967_295)
unfolding read_command eqb wrap_ℤ quot_ℤ
wrapped_ttl = refl

-- An interval that is no duration is dropped, and the ticker panics.
no_interval : ends polling [] ≡ (crashed, world)
unfolding main read_command serve eqb
no_interval = refl

-- A watcher that hears of the resource makes its job.
watched :
    ends [] (cr_applied (resource cr) ∷ [])
    ≡ (finished, record world { cluster = text "multinic-agent-n1-g2" ∷ world.cluster })
unfolding main read_command watch handle handle_cr unwrap reconcile api eqb is_settled instance_of
    label find schedule has update_cr_status apply_job build_agent_job job_name node_of delete_stale
    itoa itoa_ℤ
watched = refl
