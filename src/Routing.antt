-- ===== src/Routing.antt =====
-- internal/domain/services/routing_coordinator.go: goroutines that each call `ExecuteWithLock` once.
-- An operation is the changes that it makes to the routing tables, one after the other, and returns.
-- Measurements and logs are left out.
pub mod Laws
use multi_network_interface.Prelude.{◌≡◌, Bool, true, false, List, [], ◌∷◌, ◌++◌}

-- A goroutine in `ExecuteWithLock`: before `Lock`, in its operation with the changes that are left,
-- and behind `Unlock`.
pub data Caller (W : Type 0) : Type 0 where
  waiting : List (W → W) → Caller W
  holding : List (W → W) → Caller W
  done : Caller W

-- The mutex, the callers, the routing tables, and the operations in the order of their starts.
pub record Coordinator (W : Type 0) : Type 0 where
  pub locked : Bool
  pub callers : List (Caller W)
  pub world : W
  pub started : List (W → W)

-- `IsLocked`.
unfoldable pub is_locked : {W : Type 0} → Coordinator W → Bool
is_locked c = c.locked

abbrev pub callers_of : {W : Type 0} → List (List (W → W)) → List (Caller W)
callers_of [] = []
callers_of (operation ∷ operations) = waiting operation ∷ callers_of operations

-- `NewRoutingCoordinator`, and the callers with their operations.
unfoldable pub new_coordinator : {W : Type 0} → W → List (List (W → W)) → Coordinator W
new_coordinator w operations = record {
  locked = false;
  callers = callers_of operations;
  world = w;
  started = [];
}

module _ {W : Type 0} where
  -- `Lock`, which waits until the mutex is free; one change; and `Unlock`, when the operation returns.
  unfoldable pub lock :
      Coordinator W → List (Caller W) → List (W → W) → List (Caller W) → Coordinator W
  lock c before operation behind = record c {
    locked = true;
    callers = before ++ holding operation ∷ behind;
    started = c.started ++ operation;
  }

  unfoldable pub change :
      Coordinator W → List (Caller W) → (W → W) → List (W → W) → List (Caller W) → Coordinator W
  change c before f rest behind = record c {
    callers = before ++ holding rest ∷ behind;
    world = f c.world;
  }

  unfoldable pub unlock : Coordinator W → List (Caller W) → List (Caller W) → Coordinator W
  unlock c before behind = record c { locked = false; callers = before ++ done ∷ behind }

-- One action of one caller, between those before and behind it.
pub data Step {W : Type 0} (c : Coordinator W) : Coordinator W → Type 0 where
  locks :
      (before : List (Caller W)) (operation : List (W → W)) (behind : List (Caller W))
      → c.locked ≡ false
      → c.callers ≡ before ++ waiting operation ∷ behind
      → Step c (lock c before operation behind)
  changes :
      (before : List (Caller W)) (f : W → W) (rest : List (W → W)) (behind : List (Caller W))
      → c.callers ≡ before ++ holding (f ∷ rest) ∷ behind
      → Step c (change c before f rest behind)
  unlocks :
      (before behind : List (Caller W))
      → c.callers ≡ before ++ holding [] ∷ behind
      → Step c (unlock c before behind)

-- Any number of steps.
pub data Run {W : Type 0} (c : Coordinator W) : Coordinator W → Type 0 where
  stop : Run c c
  next : {d e : Coordinator W} → Run c d → Step d e → Run c e
