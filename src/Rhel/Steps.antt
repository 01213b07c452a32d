-- ===== src/Rhel/Steps.antt =====
-- internal/infrastructure/network/rhel_adapter.go: the commands and the file system that the adapter
-- uses, and how its calls follow each other.
pub mod Laws
use multi_network_interface.Prelude.{Bool, true, false, List, if◌then◌else◌}
use multi_network_interface.Prelude.Text.{Text}
use multi_network_interface.Errors.{GoError, nil, is_nil}
use multi_network_interface.Host.{Host}

abbrev pub Step : Type 0 → Type 0
Step W = W → GoError × W

-- The commands and the file system of a node with states in W.
pub record System (W : Type 0) : Type 0 where
  pub view : W → Host
  pub exec : List Text → Step W
  pub mkdir_all : Text → Step W
  pub write_file : Text → Text → Step W
  pub remove : Text → W → GoError × W

abbrev pub failing : (GoError → GoError) → GoError → GoError
failing wrap e = if is_nil e then nil else wrap e

module _ {W : Type 0} where
  abbrev pub done : Step W
  done w = (nil, w)

  -- The first step, and the second one if there is no error.
  infixr 5 ◌>>>◌
  unfoldable pub ◌>>>◌ : Step W → Step W → Step W
  (f >>> g) w = let r = f w in let s = g r.1 in if is_nil r.0 then s else r

  abbrev pub ignored : Step W → Step W
  ignored f w = (nil, (f w).1)

  abbrev pub or_fail : (GoError → GoError) → Step W → Step W
  or_fail wrap f w = (failing wrap (f w).0, (f w).1)

  abbrev pub when : Bool → Step W → Step W
  when true f = f
  when false f = done
