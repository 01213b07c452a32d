-- ===== src/Rhel/Steps/Laws.antt =====
-- internal/infrastructure/network: steps that end without an error.
use multi_network_interface.Prelude.{◌≡◌, refl, ap, inl, inr, Bool, true, false, Bool-cases, arith}
use multi_network_interface.Prelude.Text.{Text}
use multi_network_interface.Errors.{
  GoError, nil, is_nil, is_nil_lem, new_network_error, new_system_error, with_retryable, new_error,
}
use multi_network_interface.Rhel.Steps.{Step, failing, ◌>>>◌, done, ignored, or_fail, when}

pub >>>-nil :
    {W : Type 0} (f g : Step W) (w : W)
    → ((f >>> g) w).0 ≡ nil
    → ((f w).0 ≡ nil) × ((f >>> g) w ≡ g (f w).1)
unfolding ◌>>>◌
>>>-nil f g w h = elim (Bool-cases (is_nil (f w).0)) [
  | inl fine ↦ (is_nil_lem (f w).0 fine, rw fine)
  | inr bad ↦ absurd (ground (arith, ap is_nil h))
]

pub failing-nil :
    (wrap : GoError → GoError) (e : GoError)
    → ((x : GoError) → is_nil (wrap x) ≡ false)
    → failing wrap e ≡ nil
    → e ≡ nil
failing-nil wrap e proper h = elim (Bool-cases (is_nil e)) [
  | inl fine ↦ is_nil_lem e fine
  | inr bad ↦ absurd (ground (arith, proper e, ap is_nil h))
]

pub system-proper : (message : Text) (x : GoError) → is_nil (new_system_error message x) ≡ false
unfolding new_system_error new_error with_retryable
system-proper message x = refl

pub network-proper : (message : Text) (x : GoError) → is_nil (new_network_error message x) ≡ false
unfolding new_network_error new_error with_retryable
network-proper message x = refl

module _ {W : Type 0} (P : W → Type 0) where
  -- A step keeps what holds of a state.
  abbrev pub Preserves : Step W → Type 0
  Preserves f = (w : W) → P w → P (f w).1

  pub >>>-Preserves : (f g : Step W) → Preserves f → Preserves g → Preserves (f >>> g)
  unfolding ◌>>>◌
  >>>-Preserves f g p q w h = elim (Bool-cases (is_nil (f w).0)) [
    | inl fine ↦ rw fine (q (f w).1 (p w h))
    | inr bad ↦ rw bad (p w h)
  ]

  pub when-Preserves : (b : Bool) (f : Step W) → Preserves f → Preserves (when b f)
  when-Preserves true f p w h = p w h
  when-Preserves false f p w h = h

  pub done-Preserves : Preserves done
  done-Preserves w h = h

  pub ignored-Preserves : (f : Step W) → Preserves f → Preserves (ignored f)
  ignored-Preserves f p = p

  pub or_fail-Preserves :
      (wrap : GoError → GoError) (f : Step W) → Preserves f → Preserves (or_fail wrap f)
  or_fail-Preserves wrap f p = p

pub ruleset preserving =
    (>>>-Preserves, when-Preserves, done-Preserves, ignored-Preserves, or_fail-Preserves)
