-- ===== src/Arena/State.antt =====
-- Code that reads and writes one arena, as actions that pass it on.
use config_manager.Common.{ℕ, Bytes, [], ◌∷◌, ◌++◌, Result, ok, err, fault, out_of_fuel}
use config_manager.Value.{NodeType, Scalar}
use config_manager.Arena.{Arena, Node, allocate, release, get, write_node}

abbrev pub Action : Type 0 → Type 0
Action A = Arena → Result (A × Arena)

module _ {A B : Type 0} where
  abbrev and_then : Result (A × Arena) → (A → Action B) → Result (B × Arena)
  and_then (ok (x, a)) k = k x a
  and_then (err e) k = err e
  and_then fault k = fault
  and_then out_of_fuel k = out_of_fuel

  infixl 5 ◌>>=◌ ◌>>◌
  abbrev pub ◌>>=◌ : Action A → (A → Action B) → Action B
  m >>= k = λ a. and_then (m a) k

  abbrev pub ◌>>◌ : Action A → Action B → Action B
  m >> n = m >>= λ _. n

abbrev pub pure : {A : Type 0} → A → Action A
pure x a = ok (x, a)

abbrev no_result : Result Arena → Result (Unit {0} × Arena)
no_result (ok a) = ok (tt, a)
no_result (err e) = err e
no_result fault = fault
no_result out_of_fuel = out_of_fuel

abbrev with_arena : {A : Type 0} → Arena → Result A → Result (A × Arena)
with_arena a (ok x) = ok (x, a)
with_arena a (err e) = err e
with_arena a fault = fault
with_arena a out_of_fuel = out_of_fuel

-- arena.allocate(type), arena.release(id), arena.get(id)
unfoldable pub new : NodeType → Action ℕ
new t a = allocate t a

unfoldable pub free : ℕ → Action (Unit {0})
free id a = no_result (release id a)

unfoldable pub load : ℕ → Action Node
load id a = with_arena a (get id a)

abbrev store : ℕ → Node → Action (Unit {0})
store id n a = ok (tt, write_node id n a)

-- Assignments through `arena.get(id)`.
unfoldable pub modify : ℕ → (Node → Node) → Action (Unit {0})
unfolding load
modify id f = do n ← load id; store id (f n)

abbrev pub with_parent : ℕ → Node → Node
with_parent p n = record n { parent = p }

abbrev pub with_scalar : Scalar → Node → Node
with_scalar s n = record n { scalar = s }

abbrev pub with_member : Bytes → ℕ → Node → Node
with_member k child n = record n { members = n.members ++ (k, child) ∷ [] }

abbrev pub with_element : ℕ → Node → Node
with_element child n = record n { elements = n.elements ++ child ∷ [] }

abbrev pub without_children : Node → Node
without_children n = record n { members = []; elements = [] }
