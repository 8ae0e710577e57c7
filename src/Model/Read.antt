-- ===== src/Model/Read.antt =====
-- The functions of src/config_model.cpp that read the arena, and the validation of a value.
use config_manager.Common.{
  ℕ, zero, suc, ◌+◌, ◌==◌, ltb, Bytes, bytes_eq, Bool, false, if◌then◌else◌, Option, none, some,
  List, [], ◌∷◌, get_elem?, Result, ok, err, fault, out_of_fuel, ◌>>=◌, ◌>>◌, invalid_path,
  invalid_type, node_not_found, all,
}
use config_manager.Path.{PathSegment, key, index, is_key_byte}
use config_manager.Value.{
  ConfigValue, scalar, object, array, Members, no_members, member, Elements, no_elements, element,
  NodeType, object_type, array_type, null_type, type_eq, set_key, push, empty_object, empty_array,
  Scalar, monostate, bool_type, int_type, double_type, string_type,
}
use config_manager.Arena.{Arena, Node, node_id_none, get}

-- kMaxTreeDepth
abbrev pub max_tree_depth : ℕ
max_tree_depth = 128

unfoldable pub find_member : List (Bytes × ℕ) → Bytes → ℕ
find_member [] k = node_id_none
find_member ((j, id) ∷ ms) k = if bytes_eq j k then id else find_member ms k

unfoldable pub is_addressable_key : Bytes → Bool
is_addressable_key [] = false
is_addressable_key (c ∷ k) = all is_key_byte (c ∷ k)

unfoldable mutual
  pub validate_tree : ConfigValue → ℕ → Result (Unit {0})
  validate_tree (scalar s) depth = if ltb max_tree_depth depth then err invalid_path else ok tt
  validate_tree (object ms) depth =
      if ltb max_tree_depth depth then err invalid_path else validate_members ms (depth + 1)
  validate_tree (array es) depth =
      if ltb max_tree_depth depth then err invalid_path else validate_elements es (depth + 1)

  pub validate_members : Members → ℕ → Result (Unit {0})
  validate_members no_members depth = ok tt
  validate_members (member k v ms) depth =
      if is_addressable_key k
      then validate_tree v depth >> validate_members ms depth
      else err invalid_path

  pub validate_elements : Elements → ℕ → Result (Unit {0})
  validate_elements no_elements depth = ok tt
  validate_elements (element v es) depth = validate_tree v depth >> validate_elements es depth

-- buildValue, and its two loops over the children.
unfoldable pub build_members :
    (ℕ → Result ConfigValue) → ConfigValue → List (Bytes × ℕ) → Result ConfigValue
build_members rec value [] = ok value
build_members rec value ((k, id) ∷ ms) = do
  child ← rec id
  value' ← set_key k child value
  build_members rec value' ms

unfoldable pub build_elements : (ℕ → Result ConfigValue) → ConfigValue → List ℕ → Result ConfigValue
build_elements rec value [] = ok value
build_elements rec value (id ∷ es) = do
  child ← rec id
  value' ← push child value
  build_elements rec value' es

-- std::get of the alternative that the node's type names: a fault if the scalar holds another.
abbrev pub held_scalar : NodeType → Scalar → Result ConfigValue
held_scalar null_type s = ok (scalar monostate)
held_scalar bool_type (Scalar.bool b) = ok (scalar (Scalar.bool b))
held_scalar int_type (Scalar.int64 z) = ok (scalar (Scalar.int64 z))
held_scalar double_type (Scalar.double d) = ok (scalar (Scalar.double d))
held_scalar string_type (Scalar.string s) = ok (scalar (Scalar.string s))
held_scalar _ _ = fault

abbrev pub node_value : (ℕ → Result ConfigValue) → NodeType → Node → Result ConfigValue
node_value rec object_type n = build_members rec empty_object n.members
node_value rec array_type n = build_elements rec empty_array n.elements
node_value rec t n = held_scalar t n.scalar

unfoldable pub build_value : ℕ → Arena → ℕ → Result ConfigValue
build_value zero a id = out_of_fuel
build_value (suc fuel) a id = do n ← get id a; node_value (build_value fuel a) n.type n

-- One step of `resolve`.
abbrev pub member_child : Bytes → Node → Result ℕ
member_child k n =
    if type_eq n.type object_type
    then if find_member n.members k == node_id_none
      then err node_not_found
      else ok (find_member n.members k)
    else err invalid_type

abbrev pub or_not_found : Option ℕ → Result ℕ
or_not_found none = err node_not_found
or_not_found (some id) = ok id

abbrev pub element_child : ℕ → Node → Result ℕ
element_child i n =
    if type_eq n.type array_type then or_not_found (get_elem? n.elements i) else err invalid_type

unfoldable pub step_child : PathSegment → Node → Result ℕ
unfolding find_member
step_child (key k) n = member_child k n
step_child (index i) n = element_child i n

unfoldable pub resolve : Arena → ℕ → List PathSegment → Result ℕ
resolve a current [] = ok current
resolve a current (s ∷ segments) = do
  n ← get current a
  child ← step_child s n
  resolve a child segments
