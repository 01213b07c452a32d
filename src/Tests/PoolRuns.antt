-- ===== src/Tests/PoolRuns.antt =====
-- A pool with one worker and one job, whose handler succeeds, and a policy that retries twice.
use multi_network_interface.Prelude.{
  ℕ, ◌+◌, ◌*◌, ◌≤◌, ◌<◌, ◌≡◌, ◌≢◌, refl, false, List, [], ◌∷◌, length, ltb, arith,
}
use multi_network_interface.Prelude.Int.{pos}
use multi_network_interface.Errors.{nil}
use multi_network_interface.Pool.{
  Envelope, Pool, RetryPolicy, returned, success, settle, Step, Run, IsDone, new_worker_pool,
  submit, receive, report, active_workers,
}
use multi_network_interface.Pool.Count.{sum, under_way, reported_weight}
use multi_network_interface.Pool.Conserved.{pool_conserved, pool_done}
use multi_network_interface.Pool.Retries.{Bounded, pool_steps_bound}

abbrev twice : RetryPolicy ℕ ℕ
twice job e n = (ltb n 2, 100)

twice-Bounded : Bounded twice 2
twice-Bounded job e n h = ground arith

abbrev one_job : List ℕ
one_job = 7 ∷ []

abbrev first_try : Envelope ℕ
first_try = record { payload = 7; attempt = 0 }

abbrev fresh : Pool ℕ
unfolding new_worker_pool
fresh = new_worker_pool (pos 1) (pos 1) one_job

abbrev working : Pool ℕ
unfolding submit receive
working = receive (submit fresh 7 []) first_try []

abbrev finished : Pool ℕ
unfolding report
finished = report working first_try [] success nil

-- The job is submitted and received.
to_working : Run twice (new_worker_pool (pos 1) (pos 1) one_job) 2 working
unfolding new_worker_pool fresh working submit receive
to_working =
    Run.next (Run.next Run.stop (Step.submits 7 [] refl (omega arith)))
      (Step.receives first_try [] refl (omega arith))

-- Its handler returns nil.
to_finished : Run twice (new_worker_pool (pos 1) (pos 1) one_job) 3 finished
unfolding fresh working finished submit receive report settle
to_finished =
    Run.next to_working (Step.reports_done [] first_try [] (returned nil) success nil refl refl)

going : working.cancelled ≡ false
unfolding working receive submit fresh new_worker_pool
going = refl

pool_conserved_example :
    sum (λ x. x) working.unsent + under_way (λ x. x) working + reported_weight (λ x. x) working ≡ 7
pool_conserved_example =
    pool_conserved twice (pos 1) (pos 1) one_job (λ x. x) 2 working to_working going

is_done : IsDone one_job finished
unfolding finished working fresh submit receive report new_worker_pool
is_done = refl

pool_done_example :
    ((finished.unsent ≡ [])
      × (finished.queue ≡ [])
      × (finished.handling ≡ [])
      × (finished.resending ≡ []))
    × ((f : ℕ → ℕ) → reported_weight f finished ≡ sum f one_job)
pool_done_example = pool_done twice (pos 1) (pos 1) one_job 3 finished to_finished is_done

pool_steps_bound_example : 2 ≤ (3 * 2 + 3) * length one_job
pool_steps_bound_example =
    pool_steps_bound twice 2 twice-Bounded (pos 1) (pos 1) one_job 2 working to_working going

busy : 0 < active_workers working
unfolding working receive submit fresh new_worker_pool
busy = omega arith

unfinished : length working.reports ≢ length one_job
unfolding working receive submit fresh new_worker_pool
unfinished h = absurd (omega arith)
