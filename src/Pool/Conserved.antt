-- ===== src/Pool/Conserved.antt =====
-- internal/application/usecases/worker_pool.go: no step makes a job or drops one unnoticed.
use multi_network_interface.Prelude.{
  ℕ, ◌+◌, ◌≡◌, refl, ap, ◌∙◌, false, List, [], ◌∷◌, length, arith,
}
use multi_network_interface.Prelude.Int.{ℤ}
use multi_network_interface.Pool.{
  Pool, RetryPolicy, Step, Run, IsDone, new_worker_pool, submit, receive, report, retry, resend,
  let_go, cancel, leave,
}
use multi_network_interface.Pool.Count.{
  sum, sum-append, sum-middle, sum-one, weight, under_way, reported_weight, held,
}

module _ {ℓ κ} {A : Type ℓ} {D : Type κ} (policy : RetryPolicy A D) where
  module _ (f : A → ℕ) where
    Step-held : (s t : Pool A) → Step policy s t → held f t ≡ held f s
    unfolding submit receive report retry resend let_go cancel leave
    Step-held s t (Step.submits job rest e room) =
        let added = sum-append (weight f) s.queue ((record { payload = job; attempt = 0 }) ∷ []) in
        let split = ap (sum f) e in omega arith
    Step-held s t (Step.receives env rest e idle) = let split = ap (sum (weight f)) e in omega arith
    Step-held s t (Step.reports_done xs env ys o status x e settled) =
        let split = ap (sum (weight f)) e ∙ sum-middle (weight f) xs env ys in
        let added =
          sum-append (λ r. f r.job) s.reports
            ((record { job = env.payload; status = status; attempt = env.attempt; last_err = x })
              ∷ []) in
        omega arith
    Step-held s t (Step.retries xs env ys o d e settled going) =
        let split = ap (sum (weight f)) e ∙ sum-middle (weight f) xs env ys in omega arith
    Step-held s t (Step.resends xs env ys e room) =
        let split = ap (sum (weight f)) e ∙ sum-middle (weight f) xs env ys in
        let added = sum-append (weight f) s.queue (env ∷ []) in omega arith
    Step-held s t (Step.lets_go xs env ys o d e settled over) =
        let split = ap (sum (weight f)) e ∙ sum-middle (weight f) xs env ys in omega arith
    Step-held s t (Step.cancels going) = refl
    Step-held s t (Step.leaves others over e idle) = refl

  -- What no step changes while the context is not cancelled.
  abbrev pub Same : Pool A → Pool A → Type ℓ
  Same s t =
      (s.cancelled ≡ false)
      × (t.capacity ≡ s.capacity)
      × (t.workers ≡ s.workers)
      × (t.lost ≡ s.lost)

  pub Step-Same : (s t : Pool A) → Step policy s t → t.cancelled ≡ false → Same s t
  unfolding submit receive report retry resend let_go cancel leave
  Step-Same s t (Step.submits job rest e room) h = (h, refl, refl, refl)
  Step-Same s t (Step.receives env rest e idle) h = (h, refl, refl, refl)
  Step-Same s t (Step.reports_done xs env ys o status x e settled) h = (h, refl, refl, refl)
  Step-Same s t (Step.retries xs env ys o d e settled going) h = (h, refl, refl, refl)
  Step-Same s t (Step.resends xs env ys e room) h = (h, refl, refl, refl)
  Step-Same s t (Step.lets_go xs env ys o d e settled over) h = absurd (cc)
  Step-Same s t (Step.cancels going) h = absurd (cc)
  Step-Same s t (Step.leaves others over e idle) h = absurd (cc)

  module _ (workers size : ℤ) (jobs : List A) where
    abbrev start : Pool A
    unfolding new_worker_pool
    start = new_worker_pool workers size jobs

    pub Run-Same :
        (n : ℕ) (s : Pool A)
        → Run policy (new_worker_pool workers size jobs) n s
        → s.cancelled ≡ false
        → Same (new_worker_pool workers size jobs) s
    unfolding new_worker_pool
    Run-Same n s Run.stop h = (refl, refl, refl, refl)
    Run-Same n s (Run.next {n = m} {t} run step) h =
        let (going, c, w, l) = Step-Same t s step h in
        let (_, c', w', l') = Run-Same m t run going in (refl, c ∙ c', w ∙ w', l ∙ l')

    Run-held :
        (f : A → ℕ) (n : ℕ) (s : Pool A)
        → Run policy (new_worker_pool workers size jobs) n s
        → held f s ≡ sum f jobs
    unfolding new_worker_pool
    Run-held f n s Run.stop = omega arith
    Run-held f n s (Run.next {n = m} {t} run step) = Step-held f t s step ∙ Run-held f m t run

    -- At every point of every run whose context is not cancelled, every job is in one place: it is
    -- to be submitted, or in the queue, or in the hands of a worker, or its after-hook ran, once.
    -- (`f` gives each job a weight, so that the sums count any jobs one likes.)
    pub pool_conserved :
        (f : A → ℕ) (n : ℕ) (s : Pool A)
        → Run policy (new_worker_pool workers size jobs) n s
        → s.cancelled ≡ false
        → sum f s.unsent + under_way f s + reported_weight f s ≡ sum f jobs
    unfolding new_worker_pool
    pool_conserved f n s run going =
        let (_, _, _, nothing) = Run-Same n s run going in
        omega (arith, Run-held f n s run, ap (sum (weight f)) nothing)

    empty : {B : Type ℓ} (xs : List B) → length xs ≡ 0 → xs ≡ []
    empty [] h = refl
    empty (x ∷ xs) h = absurd (omega arith)

    pub none_held :
        (n : ℕ) (s : Pool A)
        → Run policy (new_worker_pool workers size jobs) n s
        → IsDone jobs s
        → (length s.unsent ≡ 0)
          × (length s.queue ≡ 0)
          × (length s.handling ≡ 0)
          × (length s.resending ≡ 0)
          × (length s.lost ≡ 0)
    none_held n s run done =
        let total = Run-held (λ x. 1) n s run in
        omega (
          arith,
          total,
          sum-one jobs,
          sum-one s.unsent,
          sum-one s.queue,
          sum-one s.handling,
          sum-one s.resending,
          sum-one s.reports,
          sum-one s.lost,
        )

    -- When `wg.Wait()` returns, cancelled or not, no job is left and no worker has one to send
    -- again, so that closing the channel then makes no worker panic, and the after-hook ran exactly
    -- once for each job.
    pub pool_done :
        (n : ℕ) (s : Pool A)
        → Run policy (new_worker_pool workers size jobs) n s
        → IsDone jobs s
        → ((s.unsent ≡ []) × (s.queue ≡ []) × (s.handling ≡ []) × (s.resending ≡ []))
          × ((f : A → ℕ) → reported_weight f s ≡ sum f jobs)
    pool_done n s run done =
        let none_left = none_held n s run done in
        let lost_none = empty s.lost none_left.4 in
        let unsent_none = empty s.unsent none_left.0 in
        let queue_none = empty s.queue none_left.1 in
        let handling_none = empty s.handling none_left.2 in
        let resending_none = empty s.resending none_left.3 in
        (
          (unsent_none, queue_none, handling_none, resending_none),
          λ f. omega (
            arith,
            Run-held f n s run,
            ap (sum f) unsent_none,
            ap (sum (weight f)) queue_none,
            ap (sum (weight f)) handling_none,
            ap (sum (weight f)) resending_none,
            ap (sum (weight f)) lost_none,
          ),
        )
