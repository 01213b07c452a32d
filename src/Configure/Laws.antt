-- ===== src/Configure/Laws.antt =====
-- internal/application/usecases/configure_network.go: the retry policy, the check before anything
-- is applied, and what the steps for one interface do when one of them fails.
use multi_network_interface.Prelude.{ℕ, ◌<◌, ◌≡◌, ◌↔◌, ◌⊎◌, inl, inr, true, false, some, arith}
use multi_network_interface.Prelude.Int.{ℤ}
use multi_network_interface.Prelude.Text.{Text, text, has_prefix}
use multi_network_interface.Errors.{
  GoError, is_nil, validation, Result-cases, domain_type, new_error, new_validation_error,
}
use multi_network_interface.Entities.Interface.{NetworkInterface, mac_of}
use multi_network_interface.Host.Queries.{find_interface_name_by_mac}
use multi_network_interface.Pool.Retries.{Bounded}
use multi_network_interface.Configure.{
  Services, Float, is_retryable, max_retries, retry_policy, env_bool, is_link_up, has_global_ipv4,
  is_enslaved, has_routes_for_iface, in_use, preflight_device, preflight_check,
}

module _ {F : Type 0} (float : Float F) (retries : ℤ) (multiplier : F) where
  -- The policy retries an error exactly if the attempt is below the limit and the error itself is a
  -- domain error of the type TIMEOUT, NETWORK, SYSTEM or RESOURCE.
  pub retry_policy_iff :
      (i : NetworkInterface) (e : GoError) (attempt : ℕ)
      → ((retry_policy float retries multiplier i e attempt).0 ≡ true)
        ↔ ((attempt < max_retries retries) × (is_retryable (domain_type e) ≡ true))
  unfolding retry_policy
  retry_policy_iff i e attempt = ground arith

  pub retry_policy-Bounded : Bounded (retry_policy float retries multiplier) (max_retries retries)
  unfolding retry_policy
  retry_policy-Bounded i e attempt h = ground arith

-- What the check looks at on a device that it lets pass.
abbrev pub IsSafe : {W : Type 0} → Services W → W → Text → Type 0
IsSafe services w name =
    (has_prefix name (text "multinic") ≡ true)
    ⊎ ((is_link_up services w name ≡ false)
        ⊎ ((env_bool services w (text "PREFLIGHT_ALLOW_UP") ≡ true)
            ⊎ ((has_global_ipv4 services w name ≡ false)
                × (is_enslaved services w name ≡ false)
                × ((has_routes_for_iface services w name).0 ≡ false)
                × ((has_routes_for_iface services w name).1 ≡ false))))

module _ {W : Type 0} (services : Services W) (w : W) where
  preflight_device-validation :
      (name : Text)
      → (is_nil (preflight_device services w name) ≡ true)
        ⊎ (domain_type (preflight_device services w name) ≡ some validation)
  unfolding preflight_device in_use new_validation_error new_error domain_type
  preflight_device-validation name = ground arith

  -- An interface that the check does not let pass gets an error of the type VALIDATION.
  pub preflight_check-validation :
      (i : NetworkInterface)
      → is_nil (preflight_check services w i) ≡ false
      → domain_type (preflight_check services w i) ≡ some validation
  unfolding preflight_check new_validation_error new_error domain_type
  preflight_check-validation i h =
      elim (Result-cases (find_interface_name_by_mac (services.host w) (mac_of i))) [
        | inl (name, e) ↦ ground (arith, preflight_device-validation name)
        | inr (x, e) ↦ ground arith
      ]
