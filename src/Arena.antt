-- ===== src/Arena.antt =====
-- src/node_arena.hpp: nodes in slots, addressed by id. A dead slot's `parent` is the next slot of
-- the free list. Ids and generations are 32-bit, with their wrap-around. An access that the source
-- asserts against (a dead slot, a slot past the end) is a `fault`.
pub mod State
pub mod Slots
pub mod Actions
pub mod Handles
use config_manager.Common.{
  ℕ, zero, suc, ◌+◌, ◌-◌, ◌%◌, ◌^◌, Bytes, Bool, true, false, ◌&&◌, ◌==◌, ltb, if◌then◌else◌,
  Option, none, some, List, [], ◌∷◌, ◌++◌, length, get_elem?, set, Result, ok, fault,
}
use config_manager.Value.{NodeType, Scalar, monostate, null_type}

abbrev pub word_mod : ℕ
word_mod = 2 ^ 32

-- kNodeIdNone
abbrev pub node_id_none : ℕ
node_id_none = 0xffff_ffff

pub record Node : Type 0 where
  pub type : NodeType
  pub scalar : Scalar
  pub members : List (Bytes × ℕ)
  pub elements : List ℕ
  pub parent : ℕ
  pub generation : ℕ
  pub alive : Bool

pub record Arena : Type 0 where
  pub nodes : List Node
  pub free_head : ℕ

abbrev pub empty : Arena
empty = record { nodes = []; free_head = node_id_none }

-- A node as `allocate` pushes it.
abbrev pub new_node : NodeType → Node
new_node t = record {
  type = t;
  scalar = monostate;
  members = [];
  elements = [];
  parent = node_id_none;
  generation = 0;
  alive = true;
}

abbrev pub write_node : ℕ → Node → Arena → Arena
write_node id n a = record a { nodes = set a.nodes id n }

abbrev reuse : ℕ → NodeType → Arena → Option Node → Result (ℕ × Arena)
reuse id t a none = fault
reuse id t a (some n) = ok (
  id,
  record {
    nodes =
        set a.nodes id
          (record n { type = t; scalar = monostate; parent = node_id_none; alive = true });
    free_head = n.parent;
  },
)

unfoldable pub allocate : NodeType → Arena → Result (ℕ × Arena)
allocate t a =
    if a.free_head == node_id_none
    then ok (length a.nodes % word_mod, record a { nodes = a.nodes ++ new_node t ∷ [] })
    else reuse a.free_head t a (get_elem? a.nodes a.free_head)

abbrev check_alive : Option Node → Result Node
check_alive none = fault
check_alive (some n) = if n.alive then ok n else fault

-- get
unfoldable pub get : ℕ → Arena → Result Node
get id a = check_alive (get_elem? a.nodes id)

-- What `release` leaves in the slot.
abbrev pub released : ℕ → Node → Node
released head n = record {
  type = n.type;
  scalar = monostate;
  members = [];
  elements = [];
  parent = head;
  generation = (n.generation + 1) % word_mod;
  alive = false;
}

abbrev release_node : ℕ → Arena → Option Node → Result Arena
release_node id a none = fault
release_node id a (some n) =
    if n.alive
    then ok (record { nodes = set a.nodes id (released a.free_head n); free_head = id })
    else fault

unfoldable pub release : ℕ → Arena → Result Arena
release id a = release_node id a (get_elem? a.nodes id)

abbrev node_matches : ℕ → Option Node → Bool
node_matches generation none = false
node_matches generation (some n) = n.alive && (n.generation == generation)

unfoldable pub matches : ℕ → ℕ → Arena → Bool
matches id generation a = node_matches generation (get_elem? a.nodes id)
