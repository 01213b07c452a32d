-- ===== src/Configure/Execute/Schedule.antt =====
-- internal/application/usecases/configure_network.go: the loop of one worker is a run of the pool.
use multi_network_interface.Prelude.{ℕ, suc, ◌≡◌, false, List, []}
use multi_network_interface.Errors.{GoError}
use multi_network_interface.Entities.{Net}
use multi_network_interface.Entities.Interface.{NetworkInterface}
use multi_network_interface.Pool.{Envelope, Report, Pool, RetryPolicy, Status, success}
use multi_network_interface.Pool.Count.{sum}
use multi_network_interface.Configure.{OsType, Services}
use multi_network_interface.Configure.Execute.{Shared}
use multi_network_interface.Pool.Progress.{room}

abbrev report_of : Envelope NetworkInterface → Status → GoError → Report NetworkInterface
report_of env status e = record {
  job = env.payload;
  status = status;
  attempt = env.attempt;
  last_err = e;
}

-- One for a report of a success, and one for any other.
abbrev pub success_count : {A : Type 0} → Report A → ℕ
success_count r = elim r.status [ success ↦ 1 | _ ↦ 0 ]

abbrev pub failure_count : {A : Type 0} → Report A → ℕ
failure_count r = elim r.status [ success ↦ 0 | _ ↦ 1 ]

-- The reports of the pool are what the shared variables count.
abbrev pub Counts : {W : Type 0} → Pool NetworkInterface → Shared W → Type 0
Counts p s =
    (sum success_count p.reports ≡ s.processed) × (sum failure_count p.reports ≡ s.failed_so_far)

module _ {W : Type 0} (net : Net) (services : Services W) (os : OsType) {D : Type 0}
    (policy : RetryPolicy NetworkInterface D) (room : ℕ) (workers : ℕ) where
  -- The pool between two rounds.
  abbrev between :
      List (Envelope NetworkInterface) → List (Report NetworkInterface) → Pool NetworkInterface
  between queue reports = record {
    capacity = room;
    workers = suc workers;
    unsent = [];
    queue = queue;
    handling = [];
    resending = [];
    reports = reports;
    lost = [];
    cancelled = false;
  }

  -- The pool while the jobs are submitted.
  abbrev starting : List NetworkInterface → List (Envelope NetworkInterface) → Pool NetworkInterface
  starting jobs queue = record (between queue []) { unsent = jobs }
