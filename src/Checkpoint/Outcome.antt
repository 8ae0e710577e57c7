-- ===== src/Checkpoint/Outcome.antt =====
-- What holds of an action's outcome and of the world that it leaves.
use config_manager.Common.{Result, ok, err, fault, out_of_fuel, ErrorCode}
use config_manager.Checkpoint.Host.{and_then, Io}

module _ {W A : Type 0} where
  -- `P` of the value, `E` of the error, or `S` where the action returns neither.
  abbrev pub Ends : (A → W → Type 0) → (ErrorCode → W → Type 0) → Type 0 → Result A × W → Type 0
  Ends P E S (ok x, w) = P x w
  Ends P E S (err e, w) = E e w
  Ends P E S (fault, w) = S
  Ends P E S (out_of_fuel, w) = S

  -- The action returns neither a value nor an error.
  abbrev pub Stops : Result A × W → Type 0
  Stops (ok x, w) = ⊥
  Stops (err e, w) = ⊥
  Stops (fault, w) = Unit {0}
  Stops (out_of_fuel, w) = Unit {0}

  pub Ends-map :
      {P Q : A → W → Type 0} {E F : ErrorCode → W → Type 0} {S T : Type 0} (out : Result A × W)
      → ((x : A) (w : W) → P x w → Q x w)
      → ((e : ErrorCode) (w : W) → E e w → F e w)
      → (S → T)
      → Ends P E S out
      → Ends Q F T out
  Ends-map (ok x, w) f g s h = f x w h
  Ends-map (err e, w) f g s h = g e w h
  Ends-map (fault, w) f g s h = s h
  Ends-map (out_of_fuel, w) f g s h = s h

module _ {W A B : Type 0} where
  pub Ends-bind :
      (P : A → W → Type 0) (Q : B → W → Type 0) (E : ErrorCode → W → Type 0) (S : Type 0)
      (out : Result A × W) (next : A → Io W B)
      → Ends P E S out
      → ((x : A) (w : W) → P x w → Ends Q E S (next x w))
      → Ends Q E S (and_then out next)
  Ends-bind P Q E S (ok x, w) next h k = k x w h
  Ends-bind P Q E S (err e, w) next h k = h
  Ends-bind P Q E S (fault, w) next h k = h
  Ends-bind P Q E S (out_of_fuel, w) next h k = h

-- Where there is no error.
abbrev pub Never : {W : Type 0} → ErrorCode → W → Type 0
Never _ _ = ⊥
