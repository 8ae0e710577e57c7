-- ===== src/Node.antt =====
-- include/configmanager/config_node.hpp and src/config_node.cpp: handles into a model's arena. A
-- handle's arena is passed beside it; `attached` is false where the source's pointer is null.
pub mod Convert
use config_manager.Common.{
  ℕ, Bytes, bytes_eq, Bool, true, false, ◌&&◌, ◌||◌, if◌then◌else◌, List, [], ◌∷◌, map, length,
  get_elem?, Option, none, some, Result, ok, err, fault, ◌>>=◌, node_not_found, invalid_type,
}
use config_manager.Value.{NodeType, Scalar, object_type, array_type, type_eq}
use config_manager.Arena.{Arena, Node, matches, get, node_id_none}

pub record ConfigNode : Type 0 where
  pub attached : Bool
  pub id : ℕ
  pub generation : ℕ

-- ConfigNode()
abbrev pub unbound : ConfigNode
unbound = record { attached = false; id = node_id_none; generation = 0 }

-- The handle to a node that stands at `id` now.
abbrev pub handle_to : ℕ → Node → ConfigNode
handle_to id n = record { attached = true; id = id; generation = n.generation }

unfoldable pub valid : Arena → ConfigNode → Bool
unfolding matches
valid a h = h.attached && matches h.id h.generation a

-- findLive, with the error that each accessor gives for a stale handle
unfoldable pub find_live : Arena → ConfigNode → Result Node
unfolding valid get
find_live a h = if valid a h then get h.id a else err node_not_found

-- type() and size() assert that the handle is valid.
unfoldable pub type : Arena → ConfigNode → Result NodeType
unfolding valid get
type a h = if valid a h then (do n ← get h.id a; ok n.type) else fault

abbrev node_size : NodeType → Node → ℕ
node_size object_type n = length n.members
node_size array_type n = length n.elements
node_size _ n = 0

unfoldable pub size : Arena → ConfigNode → Result ℕ
unfolding valid get
size a h = if valid a h then (do n ← get h.id a; ok (node_size n.type n)) else fault

-- The first member of that name.
unfoldable pub find_child : Bytes → List (Bytes × ℕ) → Option ℕ
find_child k [] = none
find_child k ((j, id) ∷ ms) = if bytes_eq j k then some id else find_child k ms

abbrev to_handle : Arena → Option ℕ → Result ConfigNode
to_handle a none = err node_not_found
to_handle a (some id) = do n ← get id a; ok (handle_to id n)

unfoldable pub child : Arena → ConfigNode → Bytes → Result ConfigNode
unfolding find_live find_child
child a h k = do
  n ← find_live a h
  if type_eq n.type object_type then to_handle a (find_child k n.members) else err invalid_type

unfoldable pub at : Arena → ConfigNode → ℕ → Result ConfigNode
unfolding find_live
at a h i = do
  n ← find_live a h
  if type_eq n.type array_type then to_handle a (get_elem? n.elements i) else err invalid_type

unfoldable pub keys : Arena → ConfigNode → Result (List Bytes)
unfolding find_live
keys a h = do
  n ← find_live a h
  if type_eq n.type object_type then ok (map (λ m. m.0) n.members) else err invalid_type

unfoldable pub member_handles : Arena → List (Bytes × ℕ) → Result (List (Bytes × ConfigNode))
member_handles a [] = ok []
member_handles a ((k, id) ∷ ms) = do
  n ← get id a
  rest ← member_handles a ms
  ok ((k, handle_to id n) ∷ rest)

unfoldable pub members : Arena → ConfigNode → Result (List (Bytes × ConfigNode))
unfolding find_live member_handles
members a h = do
  n ← find_live a h
  if type_eq n.type object_type then member_handles a n.members else err invalid_type

unfoldable pub scalar_value : Arena → ConfigNode → Result Scalar
unfolding find_live
scalar_value a h = do
  n ← find_live a h
  if type_eq n.type object_type || type_eq n.type array_type then err invalid_type else ok n.scalar
