-- ===== src/Routing/Laws.antt =====
-- internal/domain/services/routing_coordinator.go: the operations exclude each other, and act as if
-- each was run as a whole.
use multi_network_interface.Prelude.{
  ℕ, suc, ◌+◌, ◌≡◌, refl, sym, ap, ◌∙◌, Bool, true, false, List, [], ◌∷◌, ◌++◌, arith,
}
use multi_network_interface.Routing.{
  Caller, waiting, holding, done, Coordinator, is_locked, callers_of, new_coordinator, lock, change,
  unlock, Step, Run,
}

-- One after the other.
abbrev pub run_all : {W : Type 0} → List (W → W) → W → W
run_all [] w = w
run_all (f ∷ fs) w = run_all fs (f w)

run_all-append :
    {W : Type 0} (fs gs : List (W → W)) (w : W) → run_all (fs ++ gs) w ≡ run_all gs (run_all fs w)
run_all-append [] gs w = refl
run_all-append (f ∷ fs) gs w = run_all-append fs gs (f w)

abbrev pub as_count : Bool → ℕ
as_count true = 1
as_count false = 0

module _ {W : Type 0} where
  -- The callers that are in their operation.
  abbrev pub inside : List (Caller W) → ℕ
  inside [] = 0
  inside (holding _ ∷ callers) = suc (inside callers)
  inside (_ ∷ callers) = inside callers

  -- What the callers that are in their operation have left to do.
  abbrev pub left : List (Caller W) → List (W → W)
  left [] = []
  left (holding rest ∷ callers) = rest ++ left callers
  left (_ ∷ callers) = left callers

  inside-append : (xs ys : List (Caller W)) → inside (xs ++ ys) ≡ inside xs + inside ys
  inside-append [] ys = omega arith
  inside-append (waiting _ ∷ xs) ys = inside-append xs ys
  inside-append (holding _ ∷ xs) ys = omega (arith, inside-append xs ys)
  inside-append (done ∷ xs) ys = inside-append xs ys

  -- Callers that are not in their operation have nothing to do with what is left.
  left-none : (xs ys : List (Caller W)) → inside xs ≡ 0 → left (xs ++ ys) ≡ left ys
  left-none [] ys h = refl
  left-none (waiting _ ∷ xs) ys h = left-none xs ys h
  left-none (holding _ ∷ xs) ys h = absurd (omega (arith, h))
  left-none (done ∷ xs) ys h = left-none xs ys h

  append_nil : (fs : List (W → W)) → fs ++ [] ≡ fs
  append_nil [] = refl
  append_nil (f ∷ fs) = ap (λ gs. f ∷ gs) (append_nil fs)

  nothing_left : (ys : List (Caller W)) → inside ys ≡ 0 → left ys ≡ []
  nothing_left [] h = refl
  nothing_left (waiting _ ∷ ys) h = nothing_left ys h
  nothing_left (holding _ ∷ ys) h = absurd (omega (arith, h))
  nothing_left (done ∷ ys) h = nothing_left ys h

  -- As many callers as the mutex admits are in their operation, and when they have done what is
  -- left, the tables are what the started operations make of them, one after the other.
  abbrev pub IsSerial : W → Coordinator W → Type 0
  IsSerial w c =
      (inside c.callers ≡ as_count c.locked)
      × (run_all (left c.callers) c.world ≡ run_all c.started w)

  -- A caller in its operation is the only one.
  alone :
      (before : List (Caller W)) (rest : List (W → W)) (behind : List (Caller W)) (b : Bool)
      → inside (before ++ holding rest ∷ behind) ≡ as_count b
      → (inside before ≡ 0) × (inside behind ≡ 0) × (b ≡ true)
  alone before rest behind true h =
      let split = inside-append before (holding rest ∷ behind) in
      (omega (arith, split, h), omega (arith, split, h), refl)
  alone before rest behind false h =
      let split = inside-append before (holding rest ∷ behind) in absurd (omega (arith, split, h))

  left-alone :
      (before : List (Caller W)) (rest : List (W → W)) (behind : List (Caller W))
      → inside before ≡ 0
      → inside behind ≡ 0
      → left (before ++ holding rest ∷ behind) ≡ rest
  left-alone before rest behind h k =
      left-none before (holding rest ∷ behind) h
      ∙ (ap (λ fs. rest ++ fs) (nothing_left behind k) ∙ append_nil rest)

  Step-IsSerial : (w : W) (c d : Coordinator W) → Step c d → IsSerial w c → IsSerial w d
  unfolding lock change unlock
  Step-IsSerial w c d (Step.locks before operation behind free e) (count, same) =
      let split = inside-append before (waiting operation ∷ behind) in
      let split' = inside-append before (holding operation ∷ behind) in
      let none : inside before + inside behind ≡ 0 =
        sym split ∙ (sym (ap inside e) ∙ (count ∙ ap as_count free)) in
      let empty : left c.callers ≡ [] = nothing_left c.callers (count ∙ ap as_count free) in
      (
        omega (arith, split', none),
        ap (λ fs. run_all fs c.world)
              (left-alone before operation behind (omega (arith, none)) (omega (arith, none)))
            ∙ (ap (run_all operation) (sym (ap (λ fs. run_all fs c.world) empty) ∙ same)
                ∙ sym (run_all-append c.started operation w)),
      )
  Step-IsSerial w c d (Step.changes before f rest behind e) (count, same) =
      let (x, y, b) = alone before (f ∷ rest) behind c.locked (sym (ap inside e) ∙ count) in
      let split = inside-append before (holding rest ∷ behind) in
      (
        omega (arith, split, x, y) ∙ sym (ap as_count b),
        ap (λ fs. run_all fs (f c.world)) (left-alone before rest behind x y)
            ∙ (sym (
                  ap (λ fs. run_all fs c.world)
                    (ap left e ∙ left-alone before (f ∷ rest) behind x y))
                ∙ same),
      )
  Step-IsSerial w c d (Step.unlocks before behind e) (count, same) =
      let (x, y, b) = alone before [] behind c.locked (sym (ap inside e) ∙ count) in
      let split = inside-append before (done ∷ behind) in
      (
        omega (arith, split, x, y),
        ap (λ fs. run_all fs c.world) (left-none before (done ∷ behind) x ∙ nothing_left behind y)
            ∙ (sym (ap (λ fs. run_all fs c.world) (ap left e ∙ left-alone before [] behind x y))
                ∙ same),
      )

  all_wait : (operations : List (List (W → W))) → (inside (callers_of operations) ≡ 0)
  all_wait [] = refl
  all_wait (operation ∷ operations) = all_wait operations

  Run-IsSerial :
      (w : W) (operations : List (List (W → W))) (c : Coordinator W)
      → Run (new_coordinator w operations) c
      → IsSerial w c
  unfolding new_coordinator
  Run-IsSerial w operations c Run.stop =
      let none = all_wait operations in
      (none, ap (λ fs. run_all fs w) (nothing_left (callers_of operations) none))
  Run-IsSerial w operations c (Run.next {d} run step) =
      Step-IsSerial w d c step (Run-IsSerial w operations d run)

  -- From a new coordinator, at every point of every run, at most one caller is in its operation,
  -- and one is exactly if the mutex is locked; when it is not, the routing tables are what the
  -- operations that were started make of them, each as a whole, one after the other.
  pub Run-serial :
      (w : W) (operations : List (List (W → W))) (c : Coordinator W)
      → Run (new_coordinator w operations) c
      → (inside c.callers ≡ as_count (is_locked c))
        × (is_locked c ≡ false → c.world ≡ run_all c.started w)
  unfolding is_locked
  Run-serial w operations c run =
      let (count, same) = Run-IsSerial w operations c run in
      (
        count,
        λ free.
            sym (ap (λ fs. run_all fs c.world) (nothing_left c.callers (count ∙ ap as_count free)))
            ∙ same,
      )
