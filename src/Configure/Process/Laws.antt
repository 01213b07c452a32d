-- ===== src/Configure/Process/Laws.antt =====
-- internal/application/usecases: what applying and validating do to the world, and which errors
-- come out of it.
use mathlib.Core.Path.{subst}
use multi_network_interface.Prelude.{
  ◌≡◌, refl, sym, ap, ◌∙◌, ◌⊎◌, inl, inr, true, false, none, some, Bool-cases, arith,
}
use multi_network_interface.Prelude.Text.{Text, is_empty, trim_space}
use multi_network_interface.Errors.{
  GoError, nil, is_nil, is_nil_lem, network, ok, Result-cases, domain_type, new_error,
  with_retryable, new_network_error,
}
use multi_network_interface.Entities.InterfaceName.{InterfaceName}
use multi_network_interface.Entities.Interface.{NetworkInterface, configured, mac_of, id_of}
use multi_network_interface.Host.Queries.{find_interface_name_by_mac}
use multi_network_interface.Configure.{Services, is_link_up}
use multi_network_interface.Configure.Process.{
  applied, apply_configuration, absent, not_up, validate_configuration, ◌>=>◌, process,
}

domain_type-nil : domain_type nil ≡ none
unfolding domain_type
domain_type-nil = refl

-- A stage that ends with nil had nil before it.
>=>-nil :
    {W : Type 0} (r : GoError × W) (f : W → GoError × W) (w : W)
    → (r >=> f) ≡ (nil, w)
    → (r.0 ≡ nil) × (f r.1 ≡ (nil, w))
>=>-nil (e, v) f w h = elim (Bool-cases (is_nil e)) [
  | inl good ↦ (is_nil_lem e good, ground arith)
  | inr bad ↦ absurd (ground arith)
]

module _ {W : Type 0} (services : Services W) (i : NetworkInterface) (name : InterfaceName)
    (w : W) where
  -- The validation either changes nothing and returns nil, and then a device that is up has the MAC
  -- address, or it rolls back once and returns a network error.
  pub validate_configuration-cases :
      ((validate_configuration services i name w ≡ (nil, w))
        × (found : Text) × (find_interface_name_by_mac (services.host w) (mac_of i) ≡ ok found)
        × (is_empty (trim_space found) ≡ false)
        × (is_link_up services w found ≡ true))
      ⊎ (((validate_configuration services i name w).1 ≡ (services.rollback name.value w).1)
          × (domain_type (validate_configuration services i name w).0 ≡ some network))
  unfolding validate_configuration absent not_up new_network_error new_error with_retryable
      domain_type
  validate_configuration-cases =
      elim (Result-cases (find_interface_name_by_mac (services.host w) (mac_of i))) [
        | inr (x, e) ↦ inr (ground arith)
        | inl (found, e) ↦ elim (Bool-cases (is_empty (trim_space found))) [
          | inl blank ↦ inr (ground arith)
          | inr visible ↦ elim (Bool-cases (is_link_up services w found)) [
            | inl up ↦ inl (ground arith, found, e, visible, up)
            | inr down ↦ inr (ground arith)
          ]
        ]
      ]

module _ {W : Type 0} (services : Services W) (i : NetworkInterface) (name : InterfaceName)
    (w : W) where
  apply_configuration-nil :
      (apply_configuration services i name w).0 ≡ nil
      → services.configure i name w ≡ (nil, (apply_configuration services i name w).1)
  unfolding apply_configuration applied new_network_error new_error with_retryable
  apply_configuration-nil h = elim (Bool-cases (is_nil (services.configure i name w).0)) [
    | inl good ↦ rw good (
        ap (λ (e : GoError). (e, (services.configure i name w).1))
          (is_nil_lem (services.configure i name w).0 good))
    | inr bad ↦ absurd (ground arith)
  ]

  -- If `Process` returns nil, the configurer returned nil, in the world that it left a device that
  -- is up has the MAC address, no rollback ran, and the status was updated last, without an error.
  pub process-success :
      (w₃ : W)
      → process services i name w ≡ (nil, w₃)
      → (w₁ : W) × (found : Text) × (services.configure i name w ≡ (nil, w₁))
        × (find_interface_name_by_mac (services.host w₁) (mac_of i) ≡ ok found)
        × (is_link_up services w₁ found ≡ true)
        × (services.update_status (id_of i) configured w₁ ≡ (nil, w₃))
  unfolding process
  process-success w₃ h =
      let a = apply_configuration services i name w in
      let v = validate_configuration services i name in
      let (v_nil, updated) = >=>-nil (a >=> v) (services.update_status (id_of i) configured) w₃ h in
      let (a_nil, checked) =
        >=>-nil a v (a >=> v).1 (ap (λ (e : GoError). (e, (a >=> v).1)) v_nil) in
      elim (validate_configuration-cases services i name a.1) [
        | inl (same, found, e, visible, up) ↦ (
          a.1,
          found,
          apply_configuration-nil a_nil,
          e,
          up,
          subst (λ u. services.update_status (id_of i) configured u ≡ (nil, w₃))
              (ap (λ r. r.1) (sym checked ∙ same)) updated,
        )
        | inr (rolled, bad) ↦
            absurd
              (let typed = ap (λ r. domain_type r.0) checked in let untyped = domain_type-nil in cc)
      ]
