-- ===== src/Pool.antt =====
-- internal/application/usecases/worker_pool.go: the queue of jobs, the workers that take from it,
-- retry and cancellation. A state is what is between two channel operations; the steps of the
-- workers and of the goroutine that submits happen in any order. Metrics and durations are left out.
pub mod Count
pub mod Conserved
pub mod Retries
pub mod Progress
pub mod Cancelled
use multi_network_interface.Prelude.{
  ℕ, zero, suc, ◌+◌, ◌<◌, ◌≡◌, Bool, true, false, Option, none, some, List, [], ◌∷◌, ◌++◌, length,
  if◌then◌else◌,
}
use multi_network_interface.Prelude.Int.{ℤ, pos, negsuc}
use multi_network_interface.Errors.{GoError, is_nil}

-- `jobEnvelope`, without the time it was put in the queue.
pub record Envelope {ℓ} (A : Type ℓ) : Type ℓ where
  pub payload : A
  pub attempt : ℕ

-- `RetryPolicy`: whether to retry, and the backoff.
abbrev pub RetryPolicy {ℓ κ} : Type ℓ → Type κ → Type (ℓ ⊔ κ)
RetryPolicy A D = A → GoError → ℕ → Bool × D

-- The values of the variable `status`, without the one of a retry.
pub data Status : Type 0 where
  success failed panic : Status

-- What a run of the handler does: it returns an error, nil among them, or it panics.
pub data Outcome : Type 0 where
  returned : GoError → Outcome
  panicked : Outcome

-- One call of the after-hook: the job, the status, the attempt and `lastErr`.
pub record Report {ℓ} (A : Type ℓ) : Type ℓ where
  pub job : A
  pub status : Status
  pub attempt : ℕ
  pub last_err : GoError

-- What a worker decides when the handler is done.
pub data Settled {ℓ} (D : Type ℓ) : Type ℓ where
  reported : Status → GoError → Settled D
  retried : D → Settled D

settle_error {ℓ} : {D : Type ℓ} → Bool × D → GoError → Settled D
settle_error (true, backoff) e = retried backoff
settle_error (false, backoff) e = reported failed e

-- The function literal that calls the handler, with its `recover`.
unfoldable pub settle {ℓ κ} :
    {A : Type ℓ} {D : Type κ} → RetryPolicy A D → Envelope A → Outcome → Settled D
unfolding settle_error
settle policy env panicked = reported panic GoError.nil
settle policy env (returned e) =
    if is_nil e
    then reported success GoError.nil
    else settle_error (policy env.payload e env.attempt) e

-- `active` is split into the workers that run the handler and those that wait to send a job again.
-- `lost` holds the jobs that a worker let go of because the context was cancelled.
pub record Pool {ℓ} (A : Type ℓ) : Type ℓ where
  pub capacity : ℕ
  pub workers : ℕ
  pub unsent : List A
  pub queue : List (Envelope A)
  pub handling : List (Envelope A)
  pub resending : List (Envelope A)
  pub reports : List (Report A)
  pub lost : List (Envelope A)
  pub cancelled : Bool

-- `NewWorkerPool` and `StartE`, before the first of the jobs is submitted.
at_least : ℕ → ℤ → ℕ
at_least low (pos zero) = low
at_least low (pos (suc n)) = suc n
at_least low (negsuc n) = low

unfoldable pub new_worker_pool {ℓ} : {A : Type ℓ} → ℤ → ℤ → List A → Pool A
unfolding at_least
new_worker_pool workers queue_size jobs = record {
  capacity = at_least (at_least 1 workers) queue_size;
  workers = at_least 1 workers;
  unsent = jobs;
  queue = [];
  handling = [];
  resending = [];
  reports = [];
  lost = [];
  cancelled = false;
}

-- `QueueLen` and `ActiveWorkers`.
abbrev pub queue_len {ℓ} : {A : Type ℓ} → Pool A → ℕ
queue_len s = length s.queue

abbrev pub active_workers {ℓ} : {A : Type ℓ} → Pool A → ℕ
active_workers s = length s.handling + length s.resending

module _ {ℓ} {A : Type ℓ} (s : Pool A) where
  -- `Submit`, when the channel has room.
  unfoldable pub submit : A → List A → Pool A
  submit job rest = record s {
    unsent = rest;
    queue = s.queue ++ (record { payload = job; attempt = 0 }) ∷ [];
  }

  -- A worker receives from the channel.
  unfoldable pub receive : Envelope A → List (Envelope A) → Pool A
  receive env rest = record s { queue = rest; handling = env ∷ s.handling }

  -- The handler is done and the status is a final one: the after-hook runs.
  unfoldable pub report : Envelope A → List (Envelope A) → Status → GoError → Pool A
  report env others status e = record s {
    handling = others;
    reports =
        s.reports
        ++ (record { job = env.payload; status = status; attempt = env.attempt; last_err = e })
          ∷ [];
  }

  -- The policy retries, and the context is not cancelled after the backoff.
  unfoldable pub retry : Envelope A → List (Envelope A) → Pool A
  retry env others = record s {
    handling = others;
    resending = (record { payload = env.payload; attempt = suc env.attempt }) ∷ s.resending;
  }

  -- `p.jobs <- env`, when the channel has room.
  unfoldable pub resend : Envelope A → List (Envelope A) → Pool A
  resend env others = record s { queue = s.queue ++ env ∷ []; resending = others }

  -- The policy retries, and the context is cancelled: the job is not sent, and no hook runs.
  unfoldable pub let_go : Envelope A → List (Envelope A) → Pool A
  let_go env others = record s { handling = others; lost = env ∷ s.lost }

  unfoldable pub cancel : Pool A
  cancel = record s { cancelled = true }

  -- An idle worker sees that the context is done and returns.
  unfoldable pub leave : ℕ → Pool A
  leave others = record s { workers = others }

-- What one goroutine does next. A handler returns anything, or panics.
pub data Step {ℓ κ} {A : Type ℓ} {D : Type κ} (policy : RetryPolicy A D) (s : Pool A)
    : Pool A → Type (ℓ ⊔ κ) where
  submits :
      (job : A) (rest : List A)
      → s.unsent ≡ job ∷ rest
      → queue_len s < s.capacity
      → Step policy s (submit s job rest)
  receives :
      (env : Envelope A) (rest : List (Envelope A))
      → s.queue ≡ env ∷ rest
      → active_workers s < s.workers
      → Step policy s (receive s env rest)
  reports_done :
      (xs : List (Envelope A)) (env : Envelope A) (ys : List (Envelope A)) (o : Outcome)
      (status : Status) (e : GoError)
      → s.handling ≡ xs ++ env ∷ ys
      → settle policy env o ≡ reported status e
      → Step policy s (report s env (xs ++ ys) status e)
  retries :
      (xs : List (Envelope A)) (env : Envelope A) (ys : List (Envelope A)) (o : Outcome) (d : D)
      → s.handling ≡ xs ++ env ∷ ys
      → settle policy env o ≡ retried d
      → s.cancelled ≡ false
      → Step policy s (retry s env (xs ++ ys))
  resends :
      (xs : List (Envelope A)) (env : Envelope A) (ys : List (Envelope A))
      → s.resending ≡ xs ++ env ∷ ys
      → queue_len s < s.capacity
      → Step policy s (resend s env (xs ++ ys))
  lets_go :
      (xs : List (Envelope A)) (env : Envelope A) (ys : List (Envelope A)) (o : Outcome) (d : D)
      → s.handling ≡ xs ++ env ∷ ys
      → settle policy env o ≡ retried d
      → s.cancelled ≡ true
      → Step policy s (let_go s env (xs ++ ys))
  cancels : s.cancelled ≡ false → Step policy s (cancel s)
  leaves :
      (others : ℕ)
      → s.cancelled ≡ true
      → s.workers ≡ suc others
      → active_workers s < s.workers
      → Step policy s (leave s others)

-- Runs of the pool, with the number of their steps.
pub data Run {ℓ κ} {A : Type ℓ} {D : Type κ} (policy : RetryPolicy A D) (s : Pool A)
    : ℕ → Pool A → Type (ℓ ⊔ κ) where
  stop : Run policy s 0 s
  next : {n : ℕ} {t u : Pool A} → Run policy s n t → Step policy t u → Run policy s (suc n) u

-- `wg.Wait()` of `Execute` returns: as many after-hooks ran as jobs were submitted, which are all.
abbrev pub IsDone {ℓ} : {A : Type ℓ} → List A → Pool A → Type 0
IsDone jobs s = (length s.reports ≡ length jobs)
