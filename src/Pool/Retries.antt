-- ===== src/Pool/Retries.antt =====
-- internal/application/usecases/worker_pool.go: a bound on the attempts of a job, and on the steps.
use multi_network_interface.Prelude.{
  ℕ, ◌+◌, ◌-◌, ◌*◌, ◌≤◌, ◌<◌, ◌≡◌, refl, ap, ◌∙◌, Bool, true, false, List, [], ◌∷◌, length, All,
  leb, Bool-cases, ◌⊎◌, inl, inr, arith,
}
use multi_network_interface.Prelude.Int.{ℤ}
use multi_network_interface.Errors.{GoError, is_nil}
use multi_network_interface.Pool.{
  Envelope, success, failed, reported, Pool, RetryPolicy, Outcome, settle, retried, panicked,
  returned, settle_error, Step, Run, new_worker_pool, submit, receive, report, retry, resend,
  let_go, cancel, leave,
}
use multi_network_interface.Pool.Count.{sum, sum-append, sum-middle}
use multi_network_interface.Pool.Conserved.{Step-Same}

-- The three ends of a handler that does not panic.
pub settle-cases {ℓ κ} :
    {A : Type ℓ} {D : Type κ} (policy : RetryPolicy A D) (env : Envelope A) (e : GoError)
    → ((is_nil e ≡ true) × (settle policy env (returned e) ≡ reported success GoError.nil))
      ⊎ (((is_nil e ≡ false) × (settle policy env (returned e) ≡ reported failed e))
          ⊎ ((is_nil e ≡ false) × (d : D) × (settle policy env (returned e) ≡ retried d)))
unfolding settle settle_error
settle-cases policy env e = elim (Bool-cases (is_nil e)) [
  | inl e_nil ↦ inl (e_nil, rw e_nil refl)
  | inr e_set ↦ elim (Bool-cases (policy env.payload e env.attempt).0) [
    | inl again ↦ inr (inr (e_set, (policy env.payload e env.attempt).1, rw (e_set, again) refl))
    | inr enough ↦ inr (inl (e_set, rw (e_set, enough) refl))
  ]
]

pub settle-refused {ℓ κ} :
    {A : Type ℓ} {D : Type κ} (policy : RetryPolicy A D) (env : Envelope A) (e : GoError)
    → is_nil e ≡ false
    → (policy env.payload e env.attempt).0 ≡ false
    → settle policy env (returned e) ≡ reported failed e
unfolding settle settle_error
settle-refused policy env e e_set refused = rw (e_set, refused) refl

-- The policy retries no job that was retried `limit` times.
abbrev pub Bounded {ℓ κ} : {A : Type ℓ} {D : Type κ} → RetryPolicy A D → ℕ → Type ℓ
Bounded {A = A} policy limit =
    (job : A) (e : GoError) (n : ℕ) → limit ≤ n → (policy job e n).0 ≡ false

module _ {ℓ κ} {A : Type ℓ} {D : Type κ} (policy : RetryPolicy A D) (limit : ℕ)
    (bounded : Bounded policy limit) where
  settle_error-retried :
      (r : Bool × D) (e : GoError) (d : D) → settle_error r e ≡ retried d → r.0 ≡ true
  unfolding settle_error
  settle_error-retried (true, d') e d h = refl
  settle_error-retried (false, d') e d h = absurd (cc)

  settle-retried :
      (env : Envelope A) (o : Outcome) (d : D)
      → settle policy env o ≡ retried d
      → (e : GoError) × ((policy env.payload e env.attempt).0 ≡ true)
  unfolding settle
  settle-retried env panicked d h = absurd (cc)
  settle-retried env (returned e) d h = elim (Bool-cases (is_nil e)) [
    | inl e_nil ↦ absurd (ground arith)
    | inr e_set ↦ (e, settle_error-retried (policy env.payload e env.attempt) e d (ground arith))
  ]

  pub retried-attempt :
      (env : Envelope A) (o : Outcome) (d : D)
      → settle policy env o ≡ retried d
      → env.attempt < limit
  retried-attempt env o d h =
      let (e, allowed) = settle-retried env o d h in
      elim (Bool-cases (leb limit env.attempt)) [
        | inl past ↦ absurd (let refused = bounded env.payload e env.attempt (ground arith) in cc)
        | inr below ↦ ground arith
      ]

  abbrev over : Envelope A → ℕ
  over env = env.attempt - limit

  abbrev over_limit : Pool A → ℕ
  over_limit s =
      sum over s.queue
      + sum over s.handling
      + sum over s.resending
      + sum (λ r. r.attempt - limit) s.reports

  Step-over_limit : (s t : Pool A) → Step policy s t → over_limit t ≤ over_limit s
  unfolding submit receive report retry resend let_go cancel leave
  Step-over_limit s t (Step.submits job rest e room) =
      omega (arith, sum-append over s.queue ((record { payload = job; attempt = 0 }) ∷ []))
  Step-over_limit s t (Step.receives env rest e idle) = omega (arith, ap (sum over) e)
  Step-over_limit s t (Step.reports_done xs env ys o status x e settled) =
      let split = ap (sum over) e ∙ sum-middle over xs env ys in
      let added =
        sum-append (λ r. r.attempt - limit) s.reports
          ((record { job = env.payload; status = status; attempt = env.attempt; last_err = x })
            ∷ []) in
      omega arith
  Step-over_limit s t (Step.retries xs env ys o d e settled going) =
      let split = ap (sum over) e ∙ sum-middle over xs env ys in
      let below = retried-attempt env o d settled in omega arith
  Step-over_limit s t (Step.resends xs env ys e room) =
      let split = ap (sum over) e ∙ sum-middle over xs env ys in
      omega (arith, sum-append over s.queue (env ∷ []))
  Step-over_limit s t (Step.lets_go xs env ys o d e settled over_now) =
      let split = ap (sum over) e ∙ sum-middle over xs env ys in omega arith
  Step-over_limit s t (Step.cancels going) = omega arith
  Step-over_limit s t (Step.leaves others over_now e idle) = omega arith

  Run-over_limit :
      (workers size : ℤ) (jobs : List A) (n : ℕ) (s : Pool A)
      → Run policy (new_worker_pool workers size jobs) n s
      → over_limit s ≡ 0
  unfolding new_worker_pool
  Run-over_limit workers size jobs n s Run.stop = refl
  Run-over_limit workers size jobs n s (Run.next {n = m} {t} run step) =
      omega (arith, Run-over_limit workers size jobs m t run, Step-over_limit t s step)

  sum-All :
      {B : Type ℓ} (f : B → ℕ) (xs : List B)
      → sum (λ b. f b - limit) xs ≡ 0
      → All (λ b. f b ≤ limit) xs
  sum-All f [] h = tt
  sum-All f (x ∷ xs) h = (omega arith, sum-All f xs (omega arith))

  -- The work that is left: three steps for each run of the handler.
  abbrev waiting : Envelope A → ℕ
  waiting env = 3 * (limit - env.attempt) + 2

  abbrev held_by_worker : Envelope A → ℕ
  held_by_worker env = 3 * (limit - env.attempt) + 1

  abbrev to_resend : Envelope A → ℕ
  to_resend env = 3 * (limit - env.attempt) + 3

  abbrev pub work : Pool A → ℕ
  work s =
      sum (λ job. 3 * limit + 3) s.unsent
      + sum waiting s.queue
      + sum held_by_worker s.handling
      + sum to_resend s.resending

  pub Step-work : (s t : Pool A) → Step policy s t → t.cancelled ≡ false → work t < work s
  unfolding submit receive report retry resend let_go cancel leave
  Step-work s t (Step.submits job rest e room) h = omega (
    arith,
    ap (sum (λ job. 3 * limit + 3)) e,
    sum-append waiting s.queue ((record { payload = job; attempt = 0 }) ∷ []),
  )
  Step-work s t (Step.receives env rest e idle) h = omega (arith, ap (sum waiting) e)
  Step-work s t (Step.reports_done xs env ys o status x e settled) h =
      let split = ap (sum held_by_worker) e ∙ sum-middle held_by_worker xs env ys in omega arith
  Step-work s t (Step.retries xs env ys o d e settled going) h =
      let split = ap (sum held_by_worker) e ∙ sum-middle held_by_worker xs env ys in
      let below = retried-attempt env o d settled in omega arith
  Step-work s t (Step.resends xs env ys e room) h =
      let split = ap (sum to_resend) e ∙ sum-middle to_resend xs env ys in
      omega (arith, sum-append waiting s.queue (env ∷ []))
  Step-work s t (Step.lets_go xs env ys o d e settled over_now) h = absurd (cc)
  Step-work s t (Step.cancels going) h = absurd (cc)
  Step-work s t (Step.leaves others over_now e idle) h = absurd (cc)

  Run-work :
      (s : Pool A) (n : ℕ) (t : Pool A)
      → Run policy s n t
      → t.cancelled ≡ false
      → n + work t ≤ work s
  Run-work s n t Run.stop h = omega arith
  Run-work s n t (Run.next {n = m} {t = u} run step) h =
      let going = (Step-Same policy u t step h).0 in
      omega (arith, Run-work s m u run going, Step-work u t step h)

  sum-const : (c : ℕ) (xs : List A) → sum (λ x. c) xs ≡ c * length xs
  sum-const c [] = omega arith
  sum-const c (x ∷ xs) = grind (arith, sum-const c xs)

  -- Without cancellation, a run over the jobs ends within `3 * limit + 3` steps for each job,
  -- whatever the handler does, if the policy retries no job that was retried `limit` times.
  pub pool_steps_bound :
      (workers size : ℤ) (jobs : List A) (n : ℕ) (s : Pool A)
      → Run policy (new_worker_pool workers size jobs) n s
      → s.cancelled ≡ false
      → n ≤ (3 * limit + 3) * length jobs
  unfolding new_worker_pool
  pool_steps_bound workers size jobs n s run going = omega (
    arith,
    Run-work (new_worker_pool workers size jobs) n s run going,
    sum-const (3 * limit + 3) jobs,
  )
