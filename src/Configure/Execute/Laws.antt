-- ===== src/Configure/Execute/Laws.antt =====
-- internal/application/usecases/configure_network.go: what `Execute` reports, and that it returns.
use multi_network_interface.Prelude.{
  ℕ, zero, suc, ◌+◌, ◌-◌, ◌*◌, ◌≤◌, ◌<◌, ◌≡◌, refl, ap, ◌∙◌, false, List, [], ◌∷◌, length,
  length-snoc, map, inl, inr, Bool-cases, if◌then◌else◌, arith,
}
use multi_network_interface.Prelude.Int.{ℤ}
use multi_network_interface.Prelude.Text.{Text}
use multi_network_interface.Errors.{GoError, is_nil, Result, ok, err}
use multi_network_interface.Entities.{Net}
use multi_network_interface.Entities.InterfaceName.{InterfaceName}
use multi_network_interface.Entities.Interface.{NetworkInterface, mac_of, id_of}
use multi_network_interface.Naming.{Naming, generate_for_mac}
use multi_network_interface.Naming.Laws.Fails.{generate_for_mac-is_nil}
use multi_network_interface.Pool.{
  Envelope, RetryPolicy, Status, success, failed, panic, returned, settle,
}
use multi_network_interface.Pool.Count.{sum, sum-append}
use multi_network_interface.Pool.Retries.{Bounded, settle-cases, retried-attempt}
use multi_network_interface.Configure.{
  OsType, Services, Float, retry_policy, max_retries, preflight_check,
}
use multi_network_interface.Configure.Laws.{retry_policy-Bounded}
use multi_network_interface.Configure.Process.{process, check_need_processing}
use multi_network_interface.Configure.Execute.{
  Output, Shared, handler, handle_checked, handle_named, processed_as, add_result, add_failure,
  after_hook, settled, round, work_off, submitted, enough, begin_work, execute, execute_on,
  execute_jobs,
}

-- What a run of the handler may change: nothing of the counts, and one result if it succeeds.
abbrev pub Handled : {W : Type 0} → Shared W → GoError × Shared W → Type 0
Handled s (e, t) =
    (t.processed ≡ s.processed)
    × (t.failed_so_far ≡ s.failed_so_far)
    × (t.failures ≡ s.failures)
    × (length t.results ≡ (if is_nil e then suc (length s.results) else length s.results))

module _ {W : Type 0} (net : Net) (services : Services W) where
  processed_as-Handled :
      (i : NetworkInterface) (n : InterfaceName) (s : Shared W) (r : GoError × W)
      → Handled s (processed_as net services i n s r)
  unfolding processed_as add_result
  processed_as-Handled i n s (e, w) =
      let added = length-snoc s.results (record { id = id_of i; mac = mac_of i; name = n.value }) in
      ground arith

  handle_named-Handled :
      (os : OsType) (i : NetworkInterface) (s : Shared W) (r : Result InterfaceName)
      → ((x : GoError) → r ≡ err x → is_nil x ≡ false)
      → Handled s (handle_named net services os i s r)
  unfolding handle_named add_result
  handle_named-Handled os i s (err e) set = (refl, refl, refl, rw (set e refl) refl)
  handle_named-Handled os i s (ok n) set =
      elim (Bool-cases (check_need_processing services net i n os s.world).0) [
        | inl needed ↦ rw needed (processed_as-Handled i n s (process services i n s.world))
        | inr fine ↦ rw fine (
          refl,
          refl,
          refl,
          length-snoc s.results (record { id = id_of i; mac = mac_of i; name = n.value }),
        )
      ]

  pub handler-Handled :
      (os : OsType) (i : NetworkInterface) (s : Shared W) → Handled s (handler net services os i s)
  unfolding handler handle_checked
  handler-Handled os i s =
      let made = generate_for_mac (services.host s.world) s.naming (mac_of i) in
      elim (Bool-cases (is_nil (preflight_check services s.world i))) [
        | inl fine ↦ rw fine (
            handle_named-Handled os i (record s { naming = made.1 }) made.0
              (λ x. generate_for_mac-is_nil (services.host s.world) s.naming (mac_of i) x))
        | inr bad ↦ rw (bad, bad) (refl, refl, refl, refl)
      ]

  -- One more result for each processed job, one failure for each failed one.
  abbrev pub Tally : ℕ → ℕ → Shared W → Type 0
  Tally total left s =
      (s.processed + s.failed_so_far + left ≡ total)
      × (length s.results ≡ s.processed)
      × (length s.failures ≡ s.failed_so_far)

  pub after_hook-failed :
      (i : NetworkInterface) (status : Status) (e : GoError) (s : Shared W)
      → ((status ≡ success) → ⊥)
      → ((after_hook net services i status e s).processed ≡ s.processed)
        × ((after_hook net services i status e s).failed_so_far ≡ suc s.failed_so_far)
        × ((after_hook net services i status e s).results ≡ s.results)
        × (length (after_hook net services i status e s).failures ≡ suc (length s.failures))
  unfolding after_hook add_failure
  after_hook-failed i success e s h = absurd (h refl)
  after_hook-failed i failed e s h = (refl, refl, refl, length-snoc s.failures _)
  after_hook-failed i panic e s h = (refl, refl, refl, length-snoc s.failures _)

  module _ (os : OsType) {D : Type 0} (policy : RetryPolicy NetworkInterface D) (limit : ℕ)
      (bounded : Bounded policy limit) where
    settled-Tally :
        (env : Envelope NetworkInterface) (queue : List (Envelope NetworkInterface)) (total : ℕ)
        (s : Shared W) (e : GoError) (t : Shared W)
        → Tally total (suc (length queue)) s
        → Handled s (e, t)
        → (let r = settled net services os policy env queue t (settle policy env (returned e)) in
            Tally total (length r.0) r.1)
    unfolding settled after_hook
    settled-Tally env queue total s e t tally (p, f, l, r) = elim (settle-cases policy env e) [
      | inl (e_nil, eq) ↦ rw eq (ground arith)
      | inr (inl (e_set, eq)) ↦
          let hook = after_hook-failed env.payload failed e t (λ h. absurd (cc)) in
          rw eq (ground (arith, ap length l))
      | inr (inr (e_set, d, eq)) ↦ rw (eq, length-snoc queue _) (ground (arith, ap length l))
    ]

    abbrev left_tries : Envelope NetworkInterface → ℕ
    left_tries env = suc (limit - env.attempt)

    settled-left :
        (env : Envelope NetworkInterface) (queue : List (Envelope NetworkInterface)) (t : Shared W)
        (e : GoError)
        → sum left_tries
            (settled net services os policy env queue t (settle policy env (returned e))).0
          < sum left_tries (env ∷ queue)
    unfolding settled
    settled-left env queue t e = elim (settle-cases policy env e) [
      | inl (e_nil, eq) ↦ rw eq (omega arith)
      | inr (inl (e_set, eq)) ↦ rw eq (omega arith)
      | inr (inr (e_set, d, eq)) ↦
          let below = retried-attempt policy limit bounded env (returned e) d eq in
          rw
            (
              eq,
              sum-append left_tries queue
                  ((record { payload = env.payload; attempt = suc env.attempt }) ∷ []),
            )
            (omega arith)
    ]

    work_off-Tally :
        (fuel : ℕ) (queue : List (Envelope NetworkInterface)) (total : ℕ) (s : Shared W)
        → sum left_tries queue ≤ fuel
        → Tally total (length queue) s
        → ((work_off net services os policy fuel queue s).0 ≡ [])
          × Tally total 0 (work_off net services os policy fuel queue s).1
    unfolding work_off round
    work_off-Tally zero [] total s enough_fuel tally = (refl, tally)
    work_off-Tally (suc fuel) [] total s enough_fuel tally = (refl, tally)
    work_off-Tally zero (env ∷ queue) total s enough_fuel tally = absurd (omega arith)
    work_off-Tally (suc fuel) (env ∷ queue) total s enough_fuel tally =
        let (e, t) = handler net services os env.payload s in
        let smaller = settled-left env queue t e in
        work_off-Tally fuel _ total _ (omega arith)
          (settled-Tally env queue total s e t tally (handler-Handled os env.payload s))

  submitted-left :
      (limit : ℕ) (jobs : List NetworkInterface)
      → sum (λ env. suc (limit - env.attempt)) (map submitted jobs) ≡ suc limit * length jobs
  submitted-left limit [] = omega arith
  submitted-left limit (i ∷ jobs) = grind (arith, submitted-left limit jobs)

  pub submitted-length : (jobs : List NetworkInterface) → length (map submitted jobs) ≡ length jobs
  submitted-length [] = refl
  submitted-length (i ∷ jobs) = ap suc (submitted-length jobs)

  -- If the system's type is known and the interfaces of the node can be read, `Execute` returns an
  -- output: every interface was processed or failed, there is a result for each of the processed
  -- and a failure for each of the failed, and the total is the number of the interfaces.
  pub execute_counts :
      {F : Type 0} (float : Float F) (retries : ℤ) (multiplier : F) (node : Text) (naming : Naming)
      (w : W) (os : OsType) (jobs : List NetworkInterface)
      → services.detect_os ≡ ok os
      → services.all_node_interfaces node ≡ ok jobs
      → (out : Output) × ((execute net services float retries multiplier node naming w).0 ≡ ok out)
        × (out.processed_count + out.failed_count ≡ out.total_count)
        × (out.total_count ≡ length jobs)
        × (length out.results ≡ out.processed_count)
        × (length out.failures ≡ out.failed_count)
  unfolding execute execute_on execute_jobs
  execute_counts float retries multiplier node naming w os jobs detected listed =
      let start = begin_work net services float retries multiplier jobs naming w in
      let (empty, tally) =
        work_off-Tally os (retry_policy float retries multiplier) (max_retries retries)
          (retry_policy-Bounded float retries multiplier)
          (enough net services float retries multiplier jobs) (map submitted jobs) (length jobs)
          start (omega (arith, submitted-left (max_retries retries) jobs))
          (omega (arith, submitted-length jobs), refl, refl) in
      let path =
        ap (λ o. (execute_on net services float retries multiplier node naming w o).0) detected
        ∙ ap (λ r. (execute_jobs net services float retries multiplier os naming w r).0) listed in
      (_, path, omega (arith, tally.0), refl, tally.1, tally.2)

  -- An interface that the preflight check does not let pass changes nothing: the configurer, the
  -- rollbacker, the repository and the naming service are not called, and the error of the check is
  -- what the handler returns.
  pub handler-preflight :
      (os : OsType) (i : NetworkInterface) (s : Shared W)
      → is_nil (preflight_check services s.world i) ≡ false
      → handler net services os i s ≡ (preflight_check services s.world i, s)
  unfolding handler handle_checked
  handler-preflight os i s bad = rw bad refl
