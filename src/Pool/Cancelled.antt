-- ===== src/Pool/Cancelled.antt =====
-- internal/application/usecases/worker_pool.go: what a cancelled context does to the jobs.
use multi_network_interface.Prelude.{◌≡◌, [], ◌∷◌}
use multi_network_interface.Prelude.Int.{pos}
use multi_network_interface.Pool.{
  Envelope, Pool, RetryPolicy, Outcome, settle, retried, new_worker_pool, submit, receive, let_go,
  cancel,
}

module _ {ℓ κ} {A : Type ℓ} {D : Type κ} (policy : RetryPolicy A D) (job : A) (o : Outcome) (d : D)
    (retries : settle policy (record { payload = job; attempt = 0 }) o ≡ retried d) where
  abbrev env : Envelope A
  env = record { payload = job; attempt = 0 }

  abbrev start : Pool A
  unfolding new_worker_pool
  start = new_worker_pool (pos 1) (pos 1) (job ∷ [])

  abbrev dropped : Pool A
  unfolding submit receive cancel let_go
  dropped = let_go (cancel (receive (submit start job []) env [])) env []
