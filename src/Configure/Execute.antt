-- ===== src/Configure/Execute.antt =====
-- internal/application/usecases/configure_network.go: `Execute`, with one worker. The queue is the
-- channel, in its order; a job that is retried goes to its end. The context is not cancelled, the
-- handler does not panic, and durations are left out. (Pool models the other schedules.)
pub mod Laws
pub mod Schedule
pub mod Refused
use multi_network_interface.Prelude.{
  ℕ, zero, suc, ◌+◌, ◌*◌, Bool, true, false, Option, none, some, List, [], ◌∷◌, ◌++◌, length, map,
  if◌then◌else◌,
}
use multi_network_interface.Prelude.Int.{ℤ}
use multi_network_interface.Prelude.Text.{Text, text}
use multi_network_interface.Errors.{
  GoError, nil, is_nil, plain, wrapped, domain, Result, ok, err, error_text, new_system_error,
}
use multi_network_interface.Entities.{Net}
use multi_network_interface.Entities.InterfaceName.{InterfaceName}
use multi_network_interface.Entities.Interface.{
  InterfaceStatus, configured, failed, NetworkInterface, id_of, mac_of,
}
use multi_network_interface.Naming.{Naming, generate_for_mac}
use multi_network_interface.Naming.Reserve.{Plan, reserve_names}
use multi_network_interface.Pool.{
  Envelope, RetryPolicy, Status, success, Settled, reported, retried, Outcome, returned, settle,
}
use multi_network_interface.Configure.{
  OsType, Services, Float, retry_policy, max_retries, preflight_check, get_error_type,
}
use multi_network_interface.Configure.Process.{process, check_need_processing}

-- `InterfaceFailure`.
pub record InterfaceFailure : Type 0 where
  pub id : ℤ
  pub mac : Text
  pub name : Text
  pub error_type : Text
  pub reason : Text

-- `InterfaceResult`; the status is always `Configured`.
pub record InterfaceResult : Type 0 where
  pub id : ℤ
  pub mac : Text
  pub name : Text

-- `ConfigureNetworkOutput`.
pub record Output : Type 0 where
  pub processed_count : ℕ
  pub failed_count : ℕ
  pub total_count : ℕ
  pub failures : List InterfaceFailure
  pub results : List InterfaceResult

-- The world, the naming service's maps, and the variables that `Execute` shares with the workers.
pub record Shared (W : Type 0) : Type 0 where
  pub world : W
  pub naming : Naming
  pub processed : ℕ
  pub failed_so_far : ℕ
  pub failures : List InterfaceFailure
  pub results : List InterfaceResult

abbrev pub submitted : NetworkInterface → Envelope NetworkInterface
submitted i = record { payload = i; attempt = 0 }

module _ {W : Type 0} (net : Net) (services : Services W) where
  add_result : NetworkInterface → InterfaceName → Shared W → Shared W
  add_result i name s = record s {
    results = s.results ++ (record { id = id_of i; mac = mac_of i; name = name.value }) ∷ [];
  }

  processed_as : NetworkInterface → InterfaceName → Shared W → GoError × W → GoError × Shared W
  unfolding add_result
  processed_as i name s (e, w) =
      if is_nil e
      then (nil, add_result i name (record s { world = w }))
      else (e, record s { world = w })

  handle_named : OsType → NetworkInterface → Shared W → Result InterfaceName → GoError × Shared W
  unfolding processed_as
  handle_named os i s (err e) = (e, s)
  handle_named os i s (ok name) =
      if (check_need_processing services net i name os s.world).0
      then processed_as i name s (process services i name s.world)
      else (nil, add_result i name s)

  handle_checked : OsType → NetworkInterface → Shared W → GoError → GoError × Shared W
  unfolding handle_named
  handle_checked os i s e =
      let (name, naming) = generate_for_mac (services.host s.world) s.naming (mac_of i) in
      if is_nil e then handle_named os i (record s { naming = naming }) name else (e, s)

  -- The handler that `Execute` starts the pool with.
  unfoldable pub handler : OsType → NetworkInterface → Shared W → GoError × Shared W
  unfolding handle_checked
  handler os i s = handle_checked os i s (preflight_check services s.world i)

  name_text : Result InterfaceName → Text
  name_text (ok name) = name.value
  name_text (err _) = []

  add_failure : NetworkInterface → GoError → Result InterfaceName → Naming → W → Shared W → Shared W
  unfolding name_text
  add_failure i e name naming w s = record s {
    world = w;
    naming = naming;
    failed_so_far = suc s.failed_so_far;
    failures =
        s.failures
        ++ (record {
          id = id_of i;
          mac = mac_of i;
          name = name_text name;
          error_type = if is_nil e then text "unknown" else get_error_type e;
          reason = if is_nil e then text "final failure" else error_text e;
        })
          ∷ [];
  }

  -- The after-hook; the error of the status update is dropped.
  unfoldable pub after_hook : NetworkInterface → Status → GoError → Shared W → Shared W
  unfolding add_failure
  after_hook i success e s = record s {
    world = (services.update_status (id_of i) configured s.world).1;
    processed = suc s.processed;
  }
  after_hook i _ e s =
      let (name, naming) = generate_for_mac (services.host s.world) s.naming (mac_of i) in
      add_failure i e name naming (services.update_status (id_of i) failed s.world).1 s

  module _ (os : OsType) {D : Type 0} (policy : RetryPolicy NetworkInterface D) where
    -- What follows the handler: the queue, and the shared variables.
    settled :
        Envelope NetworkInterface
        → List (Envelope NetworkInterface)
        → Shared W
        → Settled D
        → List (Envelope NetworkInterface) × Shared W
    settled env queue s (reported status e) = (queue, after_hook env.payload status e s)
    settled env queue s (retried d) =
        (queue ++ (record { payload = env.payload; attempt = suc env.attempt }) ∷ [], s)

    -- One round of the worker's loop.
    unfoldable pub round :
        Envelope NetworkInterface
        → List (Envelope NetworkInterface)
        → Shared W
        → List (Envelope NetworkInterface) × Shared W
    unfolding settled
    round env queue s =
        let (e, after) = handler os env.payload s in
        settled env queue after (settle policy env (returned e))

    -- The loop on fuel; what is left in the queue when it ends, and the shared variables.
    unfoldable pub work_off :
        ℕ
        → List (Envelope NetworkInterface)
        → Shared W
        → List (Envelope NetworkInterface) × Shared W
    unfolding round
    work_off zero queue s = (queue, s)
    work_off (suc fuel) [] s = ([], s)
    work_off (suc fuel) (env ∷ queue) s =
        let (left, after) = round env queue s in work_off fuel left after

  module _ {F : Type 0} (float : Float F) (retries : ℤ) (multiplier : F) where
    abbrev outcome : ℕ → List (Envelope NetworkInterface) × Shared W → Result Output × Naming × W
    outcome total (left, s) = (
      ok (record {
        processed_count = s.processed;
        failed_count = s.failed_so_far;
        total_count = total;
        failures = s.failures;
        results = s.results;
      }),
      s.naming,
      s.world,
    )

    -- A job is handled at most `max_retries retries + 1` times.
    abbrev pub enough : List NetworkInterface → ℕ
    enough jobs = suc (max_retries retries) * length jobs

    -- The shared variables after the names were reserved; an error there is only logged.
    abbrev pub begin_work : List NetworkInterface → Naming → W → Shared W
    begin_work jobs naming w = record {
      world = w;
      naming = (reserve_names (services.host w) naming jobs).0.naming;
      processed = 0;
      failed_so_far = 0;
      failures = [];
      results = [];
    }

    execute_jobs : OsType → Naming → W → Result (List NetworkInterface) → Result Output × Naming × W
    execute_jobs os naming w (err e) =
        (err (new_system_error (text "failed to get node interfaces") e), naming, w)
    execute_jobs os naming w (ok jobs) = outcome (length jobs) (
        work_off os (retry_policy float retries multiplier) (enough jobs) (map submitted jobs)
          (begin_work jobs naming w))

    execute_on : Text → Naming → W → Result OsType → Result Output × Naming × W
    unfolding execute_jobs
    execute_on node naming w (err e) =
        (err (new_system_error (text "failed to detect OS type") e), naming, w)
    execute_on node naming w (ok os) = execute_jobs os naming w (services.all_node_interfaces node)

    -- `Execute`.
    unfoldable pub execute : Text → Naming → W → Result Output × Naming × W
    unfolding execute_on
    execute node naming w = execute_on node naming w services.detect_os
