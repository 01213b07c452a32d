-- ===== src/Pool/Progress.antt =====
-- internal/application/usecases/worker_pool.go, as `Execute` of configure_network.go starts it: a
-- queue with room for all the jobs, so that the pool never gets stuck.
use multi_network_interface.Prelude.{
  ℕ, zero, suc, ◌+◌, ◌≤◌, ◌<◌, ◌≡◌, ◌≢◌, refl, ap, false, List, [], ◌∷◌, length, arith,
}
use multi_network_interface.Prelude.Int.{ℤ, pos}
use multi_network_interface.Pool.{
  Envelope, Pool, RetryPolicy, Outcome, settle, Settled, retried, reported, Step, Run,
  new_worker_pool, at_least, submit, receive, report, retry, resend, active_workers, queue_len,
}
use multi_network_interface.Pool.Count.{sum-one}
use multi_network_interface.Pool.Conserved.{Run-Same, pool_conserved}

module _ {ℓ κ} {A : Type ℓ} {D : Type κ} (policy : RetryPolicy A D) (jobs : List A)
    (workers : ℤ) where
  abbrev pub Next : Pool A → Type (ℓ ⊔ κ)
  Next s = (t : Pool A) × Step policy s t × (t.cancelled ≡ false)

  at_least_lem : (low : ℕ) (n : ℤ) → 1 ≤ low → 1 ≤ at_least low n
  unfolding at_least
  at_least_lem low (pos zero) h = h
  at_least_lem low (pos (suc n)) h = omega arith
  at_least_lem low (ℤ.negsuc n) h = h

  at_least-pos : (low n : ℕ) → 1 ≤ low → (n ≤ at_least low (pos n)) × (1 ≤ at_least low (pos n))
  unfolding at_least
  at_least-pos low zero h = (omega arith, h)
  at_least-pos low (suc n) h = (omega arith, omega arith)

  pub room :
      (n : ℕ) (s : Pool A)
      → Run policy (new_worker_pool workers (pos (length jobs)) jobs) n s
      → s.cancelled ≡ false
      → (length jobs ≤ s.capacity) × (1 ≤ s.capacity) × (1 ≤ s.workers)
  unfolding new_worker_pool
  room n s run going =
      let (_, c, w, _) = Run-Same policy workers (pos (length jobs)) jobs n s run going in
      let some_worker = at_least_lem 1 workers (omega arith) in
      let fits = at_least-pos (at_least 1 workers) (length jobs) some_worker in omega arith

  counted :
      (n : ℕ) (s : Pool A)
      → Run policy (new_worker_pool workers (pos (length jobs)) jobs) n s
      → s.cancelled ≡ false
      → length s.unsent + length s.queue + length s.handling + length s.resending + length s.reports
        ≡ length jobs
  counted n s run going =
      let total = pool_conserved policy workers (pos (length jobs)) jobs (λ x. 1) n s run going in
      omega (
        arith,
        total,
        sum-one jobs,
        sum-one s.unsent,
        sum-one s.queue,
        sum-one s.handling,
        sum-one s.resending,
        sum-one s.reports,
      )

  -- With a queue that has room for all the jobs, while a worker holds a job and the context is not
  -- cancelled, the queue is not full: a worker that sends a job again never waits.
  pub pool_resend_has_room :
      (n : ℕ) (s : Pool A)
      → Run policy (new_worker_pool workers (pos (length jobs)) jobs) n s
      → s.cancelled ≡ false
      → 0 < active_workers s
      → queue_len s < s.capacity
  pool_resend_has_room n s run going busy = omega (arith, counted n s run going, room n s run going)

  settles :
      (s : Pool A) (env : Envelope A) (others : List (Envelope A)) (o : Outcome)
      → s.cancelled ≡ false
      → s.handling ≡ env ∷ others
      → (r : Settled D) → settle policy env o ≡ r
      → Next s
  unfolding report retry
  settles s env others o going e (reported status x) h =
      (report s env others status x, Step.reports_done [] env others o status x e h, going)
  settles s env others o going e (retried d) h =
      (retry s env others, Step.retries [] env others o d e h going, going)

  -- The steps that are tried, first of all those of the workers that hold a job.
  goes_on :
      (handler : Envelope A → Outcome) (s : Pool A)
      → s.cancelled ≡ false
      → 1 ≤ s.workers
      → 1 ≤ s.capacity
      → (0 < active_workers s → queue_len s < s.capacity)
      → length s.unsent + length s.queue + length s.handling + length s.resending ≢ 0
      → (again running queue : List (Envelope A)) (unsent : List A) → s.resending ≡ again
      → s.handling ≡ running
      → s.queue ≡ queue
      → s.unsent ≡ unsent
      → Next s
  unfolding resend receive submit
  goes_on handler s going w c has_room busy (env ∷ others) running queue unsent ea er eq eu = (
    resend s env others,
    Step.resends [] env others ea (has_room (omega (arith, ap length ea))),
    going,
  )
  goes_on handler s going w c has_room busy [] (env ∷ others) queue unsent ea er eq eu =
      settles s env others (handler env) going er (settle policy env (handler env)) refl
  goes_on handler s going w c has_room busy [] [] (env ∷ others) unsent ea er eq eu = (
    receive s env others,
    Step.receives env others eq (omega (arith, ap length ea, ap length er)),
    going,
  )
  goes_on handler s going w c has_room busy [] [] [] (job ∷ rest) ea er eq eu =
      (submit s job rest, Step.submits job rest eu (omega (arith, ap length eq)), going)
  goes_on handler s going w c has_room busy [] [] [] [] ea er eq eu =
      absurd (busy (omega (arith, ap length ea, ap length er, ap length eq, ap length eu)))

  -- With a queue that has room for all the jobs, and without cancellation, some goroutine can go on
  -- until `wg.Wait()` returns, whatever the handler does with each job.
  pub pool_progress :
      (handler : Envelope A → Outcome) (n : ℕ) (s : Pool A)
      → Run policy (new_worker_pool workers (pos (length jobs)) jobs) n s
      → s.cancelled ≡ false
      → length s.reports ≢ length jobs
      → Next s
  pool_progress handler n s run going unfinished =
      let total = counted n s run going in
      let (_, c, w) = room n s run going in
      goes_on handler s going w c (pool_resend_has_room n s run going)
        (λ h. unfinished (omega arith)) s.resending s.handling s.queue s.unsent refl refl refl refl
