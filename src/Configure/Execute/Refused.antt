-- ===== src/Configure/Execute/Refused.antt =====
-- internal/application/usecases/configure_network.go: what the worker does with an interface that
-- the preflight check does not let pass.
use multi_network_interface.Prelude.{ℕ, ◌≡◌, refl, ap, false, some, List, Bool-cases, inl, inr}
use multi_network_interface.Prelude.Int.{ℤ}
use multi_network_interface.Errors.{GoError, is_nil, validation, domain_type}
use multi_network_interface.Entities.{Net}
use multi_network_interface.Entities.Interface.{NetworkInterface}
use multi_network_interface.Pool.{Envelope, failed}
use multi_network_interface.Pool.Retries.{settle-refused}
use multi_network_interface.Configure.{
  OsType, Services, Float, is_retryable, retry_policy, preflight_check,
}
use multi_network_interface.Configure.Laws.{retry_policy_iff, preflight_check-validation}
use multi_network_interface.Configure.Execute.{Shared, after_hook, settled, round}
use multi_network_interface.Configure.Execute.Laws.{handler-preflight}

module _ {W F : Type 0} (net : Net) (services : Services W) (float : Float F) (retries : ℤ)
    (multiplier : F) where
  validation-refused :
      (i : NetworkInterface) (e : GoError) (attempt : ℕ)
      → domain_type e ≡ some validation
      → (retry_policy float retries multiplier i e attempt).0 ≡ false
  validation-refused i e attempt h =
      elim (Bool-cases (retry_policy float retries multiplier i e attempt).0) [
        | inr refused ↦ refused
        | inl again ↦ absurd (
            let allowed = ((retry_policy_iff float retries multiplier i e attempt).0 again).1 in
            let typed = ap is_retryable h in cc)
      ]

  -- An interface that the preflight check does not let pass fails at once: on whatever attempt, it
  -- is not put in the queue again, the after-hook runs with the status failed and the error of the
  -- check, and before that nothing has changed.
  pub round-preflight :
      (os : OsType) (env : Envelope NetworkInterface) (queue : List (Envelope NetworkInterface))
      (s : Shared W)
      → is_nil (preflight_check services s.world env.payload) ≡ false
      → round net services os (retry_policy float retries multiplier) env queue s ≡ (
        queue,
        after_hook net services env.payload failed (preflight_check services s.world env.payload) s,
      )
  unfolding round settled
  round-preflight os env queue s bad =
      let e = preflight_check services s.world env.payload in
      let refused =
        validation-refused env.payload e env.attempt
          (preflight_check-validation services s.world env.payload bad) in
      rw
        (
          handler-preflight net services os env.payload s bad,
          settle-refused (retry_policy float retries multiplier) env e bad refused,
        )
        refl
