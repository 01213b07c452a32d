-- ===== src/Pool/Count.antt =====
-- internal/application/usecases/worker_pool.go: sums over the jobs of the pool, wherever they are.
use multi_network_interface.Prelude.{ℕ, ◌+◌, ◌≡◌, refl, List, [], ◌∷◌, ◌++◌, length, arith}
use multi_network_interface.Pool.{Envelope, Pool}

module _ {ℓ} {A : Type ℓ} (f : A → ℕ) where
  abbrev pub sum : List A → ℕ
  sum [] = 0
  sum (x ∷ xs) = f x + sum xs

  pub sum-append : (xs ys : List A) → sum (xs ++ ys) ≡ sum xs + sum ys
  sum-append [] ys = omega arith
  sum-append (x ∷ xs) ys = omega (arith, sum-append xs ys)

  pub sum-middle : (xs : List A) (x : A) (ys : List A) → sum (xs ++ x ∷ ys) ≡ f x + sum (xs ++ ys)
  sum-middle [] x ys = refl
  sum-middle (y ∷ xs) x ys = omega (arith, sum-middle xs x ys)

-- A job without weight of its own: what counts the elements of a list.
pub sum-one {ℓ} : {A : Type ℓ} (xs : List A) → sum (λ x. 1) xs ≡ length xs
sum-one [] = refl
sum-one (x ∷ xs) = omega (arith, sum-one xs)

-- The weight of all the jobs of a state: those to submit, those under way, and those done with.
module _ {ℓ} {A : Type ℓ} (f : A → ℕ) where
  abbrev pub weight : Envelope A → ℕ
  weight env = f env.payload

  abbrev pub under_way : Pool A → ℕ
  under_way s = sum weight s.queue + sum weight s.handling + sum weight s.resending

  abbrev pub reported_weight : Pool A → ℕ
  reported_weight s = sum (λ r. f r.job) s.reports

  abbrev pub held : Pool A → ℕ
  held s = sum f s.unsent + under_way s + reported_weight s + sum weight s.lost
