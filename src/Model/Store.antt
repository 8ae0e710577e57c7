-- ===== src/Model/Store.antt =====
-- The functions of src/config_model.cpp that write the arena, from buildFromValue to applyWrite.
use config_manager.Common.{ℕ, zero, suc, List, [], ◌∷◌, map, fault, out_of_fuel, if◌then◌else◌}
use config_manager.Path.{PathSegment, key, index}
use config_manager.Value.{
  ConfigValue, scalar, object, array, Members, no_members, member, Elements, no_elements, element,
  NodeType, object_type, array_type, scalar_type, type_of, type_eq,
}
use config_manager.Arena.{Node, node_id_none}
use config_manager.Arena.State.{
  Action, ◌>>=◌, ◌>>◌, pure, new, free, load, modify, with_parent, with_scalar, with_member,
  with_element, without_children,
}

-- The first steps of buildFromValue: a slot of that type under that parent.
unfoldable pub begin : NodeType → ℕ → Action ℕ
begin type parent = do id ← new type; modify id (with_parent parent); pure id

-- buildFromValue
unfoldable mutual
  pub build : ConfigValue → ℕ → Action ℕ
  build (scalar s) parent = do id ← begin (scalar_type s) parent; modify id (with_scalar s); pure id
  build (object ms) parent = do id ← begin object_type parent; add_members ms id; pure id
  build (array es) parent = do id ← begin array_type parent; add_elements es id; pure id

  pub add_members : Members → ℕ → Action (Unit {0})
  add_members no_members id = pure tt
  add_members (member k v ms) id = do
    child ← build v id
    modify id (with_member k child)
    add_members ms id

  pub add_elements : Elements → ℕ → Action (Unit {0})
  add_elements no_elements id = pure tt
  add_elements (element v es) id = do
    child ← build v id
    modify id (with_element child)
    add_elements es id

unfoldable pub for_each : (ℕ → Action (Unit {0})) → List ℕ → Action (Unit {0})
for_each f [] = pure tt
for_each f (x ∷ xs) = do f x; for_each f xs

-- freeChildren, over the function that frees a subtree
unfoldable pub free_children : (ℕ → Action (Unit {0})) → ℕ → Action (Unit {0})
unfolding for_each
free_children free_child id = do
  n ← load id
  modify id without_children
  for_each free_child (map (λ m. m.1) n.members)
  for_each free_child n.elements

unfoldable pub free_subtree : ℕ → ℕ → Action (Unit {0})
unfolding free_children
free_subtree zero id = λ _. out_of_fuel
free_subtree (suc fuel) id = do free_children (free_subtree fuel) id; free id

abbrev pub adopt : ℕ → ℕ → Action (Unit {0})
adopt target child = modify child (with_parent target)

-- assignContents: the new contents are built apart and then moved into the target.
unfoldable pub assign_contents : ℕ → ℕ → ConfigValue → Action (Unit {0})
unfolding build free_children free_subtree for_each
assign_contents fuel target value = do
  n ← load target
  if type_eq n.type (type_of value)
      then (do
        built ← build value node_id_none
        free_children (free_subtree fuel) target
        b ← load built
        modify target
            (λ t. record t { scalar = b.scalar; members = b.members; elements = b.elements })
        for_each (adopt target) (map (λ m. m.1) b.members)
        for_each (adopt target) b.elements
        free built)
      else (λ _. fault)

abbrev pub container_type : PathSegment → NodeType
container_type (key _) = object_type
container_type (index _) = array_type

-- Links a child under a container, as the segment says.
abbrev pub link : PathSegment → ℕ → Node → Node
link (key k) child = with_member k child
link (index _) child = with_element child

-- The loop of applyWrite from the last segment down to the one after the creation point.
unfoldable pub build_chain : List PathSegment → ConfigValue → Action ℕ
unfolding build
build_chain [] value = build value node_id_none
build_chain (s ∷ segments) value = do
  chain ← build_chain segments value
  container ← new (container_type s)
  modify chain (with_parent container)
  modify container (link s chain)
  pure container
