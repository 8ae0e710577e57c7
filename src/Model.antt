-- ===== src/Model.antt =====
-- src/config_model.cpp and include/configmanager/config_model.hpp: the configuration model, a tree
-- in an arena. What recurs over the arena runs on fuel, one round for each slot and one more. The
-- guards that free a partial subtree when memory runs out have no part in the model.
pub mod Read
pub mod Store
pub mod Plan
pub mod Tree
pub mod Build
pub mod Spec
pub mod Resolve
pub mod Extract
pub mod Release
pub mod Invariant
pub mod Subvalue
pub mod Reads
pub mod Assign
pub mod Edit
pub mod Writes
pub mod Create
pub mod Stale
use config_manager.Common.{
  ℕ, zero, suc, ◌+◌, Bytes, Bool, true, false, ◌==◌, not, if◌then◌else◌, List, [], ◌∷◌, Option,
  none, some, length, Result, ok, err, fault, out_of_fuel, ◌>>=◌, ◌>>◌, is_ok, invalid_type,
  node_not_found,
}
use config_manager.Path.{PathSegment, key, index, parse}
use config_manager.Value.{ConfigValue, object_type, type_eq, type_of, HostValue, of_host, violates}
use config_manager.Arena
use config_manager.Arena.{Arena, Node, get, allocate}
use config_manager.Arena.State
use config_manager.Node.{ConfigNode, handle_to}
use Read.{validate_tree, build_value, resolve}
use Store.{assign_contents, free_subtree}
use Plan.{plan_write, apply_write}

pub record ConfigModel : Type 0 where
  pub arena : Arena
  pub root_id : ℕ

abbrev pub enough : Arena → ℕ
enough a = suc (length a.nodes)

-- ConfigModel()
unfoldable pub empty_model : Result ConfigModel
unfolding allocate
empty_model = do (id, a) ← allocate object_type Arena.empty; ok (record { arena = a; root_id = id })

unfoldable pub root : ConfigModel → Result ConfigNode
root m = do n ← get m.root_id m.arena; ok (handle_to m.root_id n)

unfoldable pub from_value : ConfigValue → Result ConfigModel
unfolding validate_tree empty_model assign_contents
from_value value =
    if type_eq (type_of value) object_type
    then (do
      validate_tree value 0
      m ← empty_model
      (_, a) ← assign_contents (enough m.arena) m.root_id value m.arena
      ok (record m { arena = a }))
    else err invalid_type

unfoldable pub get_value : ConfigModel → Bytes → Result ConfigValue
unfolding resolve build_value
get_value m path = do
  segments ← parse path
  id ← resolve m.arena m.root_id segments
  build_value (enough m.arena) m.arena id

-- A method that writes returns its result and the model after it.
abbrev pub commit : ConfigModel → Result (Unit {0} × Arena) → Result (Unit {0}) × ConfigModel
commit m (ok (_, a)) = (ok tt, record m { arena = a })
commit m (err e) = (err e, m)
commit m fault = (fault, m)
commit m out_of_fuel = (out_of_fuel, m)

unfoldable pub set_steps : ConfigModel → Bytes → ConfigValue → Result (Unit {0} × Arena)
unfolding validate_tree plan_write apply_write
set_steps m path subtree = do
  segments ← parse path
  validate_tree subtree (length segments)
  plan ← plan_write m.arena m.root_id 0 segments (type_of subtree)
  apply_write (enough m.arena) plan segments subtree m.arena

unfoldable pub set : ConfigModel → Bytes → ConfigValue → Result (Unit {0}) × ConfigModel
unfolding set_steps
set m path subtree = commit m (set_steps m path subtree)

abbrev set_of : ConfigModel → Bytes → Option ConfigValue → Result (Unit {0}) × ConfigModel
set_of m path none = (fault, m)
set_of m path (some value) = set m path value

-- The scalar overload. `of_host` has no value only where it throws.
unfoldable pub set_scalar : ConfigModel → Bytes → HostValue → Result (Unit {0}) × ConfigModel
unfolding violates of_host
set_scalar m path value =
    if violates value then (err invalid_type, m) else set_of m path (of_host value)

abbrev pub has_value {ℓ} : {A : Type ℓ} → Result A → Result Bool
has_value (ok _) = ok true
has_value (err _) = ok false
has_value fault = fault
has_value out_of_fuel = out_of_fuel

unfoldable pub contains : ConfigModel → Bytes → Result Bool
unfolding resolve
contains m path = has_value (do segments ← parse path; resolve m.arena m.root_id segments)

-- The member of that id, if there is one, is erased.
unfoldable pub erase_member : ℕ → List (Bytes × ℕ) → List (Bytes × ℕ)
erase_member target [] = []
erase_member target ((k, id) ∷ ms) = if id == target then ms else (k, id) ∷ erase_member target ms

unfoldable pub erase_at : ℕ → List ℕ → List ℕ
erase_at i [] = []
erase_at zero (id ∷ es) = es
erase_at (suc i) (id ∷ es) = id ∷ erase_at i es

abbrev pub last_or : PathSegment → List PathSegment → PathSegment
last_or d [] = d
last_or d (s ∷ ss) = last_or s ss

unfoldable pub unlink : PathSegment → ℕ → Node → Node
unfolding erase_member erase_at
unlink (key _) target n = record n { members = erase_member target n.members }
unlink (index i) target n = record n { elements = erase_at i n.elements }

unfoldable pub remove_at : ℕ → ℕ → PathSegment → State.Action (Unit {0})
unfolding unlink State.load State.modify free_subtree
remove_at fuel target last =
    State.◌>>=◌ (State.load target)
      λ n. State.◌>>◌ (State.modify n.parent (unlink last target)) (free_subtree fuel target)

unfoldable pub remove_steps : ConfigModel → Bytes → Result (Unit {0} × Arena)
unfolding resolve remove_at
remove_steps m path = do
  segments ← parse path
  target ← resolve m.arena m.root_id segments
  remove_at (enough m.arena) target (last_or (key []) segments) m.arena

unfoldable pub remove : ConfigModel → Bytes → Result (Unit {0}) × ConfigModel
unfolding remove_steps
remove m path = commit m (remove_steps m path)

unfoldable pub node_at : ConfigModel → Bytes → Result ConfigNode
unfolding resolve
node_at m path = do
  segments ← parse path
  id ← resolve m.arena m.root_id segments
  n ← get id m.arena
  ok (handle_to id n)

-- A deep copy of the arena is the same value.
unfoldable pub clone : ConfigModel → ConfigModel
clone m = record { arena = m.arena; root_id = m.root_id }
