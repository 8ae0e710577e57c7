-- ===== src/Model/Edit.antt =====
-- The specification of `set` and `remove`: on values, with no arena in sight.
pub mod Tree
pub mod Place
pub mod Attach
pub mod Chain
pub mod Descend
pub mod Write
pub mod Erase
pub mod Removal
pub mod Unique
use config_manager.Common.{
  ℕ, zero, suc, bytes_eq, Bytes, Bool, true, false, if◌then◌else◌, Option, none, some, List, [],
  ◌∷◌, Result, ok, err, fault, out_of_fuel, ◌>>=◌, all, invalid_type, node_not_found,
}
use config_manager.Path.{PathSegment, key, index}
use config_manager.Value.{
  ConfigValue, scalar, object, array, Members, no_members, member, Elements, no_elements, element,
  put_member, type_of, type_eq,
}
use config_manager.Model.Plan.{creatable_segment}
use config_manager.Model.Spec.{step_value}

-- What a segment leads to: a child, `none` where one can be added, or an error.
abbrev pub next_member : Bytes → Members → Option ConfigValue
next_member k no_members = none
next_member k (member j v ms) = if bytes_eq j k then some v else next_member k ms

abbrev pub next_element : ℕ → Elements → Result (Option ConfigValue)
next_element zero no_elements = ok none
next_element (suc i) no_elements = err node_not_found
next_element zero (element v es) = ok (some v)
next_element (suc i) (element v es) = next_element i es

abbrev pub next_child : PathSegment → ConfigValue → Result (Option ConfigValue)
next_child (key k) (object ms) = ok (next_member k ms)
next_child (key k) (scalar _) = err invalid_type
next_child (key k) (array _) = err invalid_type
next_child (index i) (array es) = next_element i es
next_child (index i) (scalar _) = err invalid_type
next_child (index i) (object _) = err invalid_type

-- A child put in the place to which a segment leads, or added there.
abbrev pub put_element : ℕ → ConfigValue → Elements → Elements
put_element i v no_elements = element v no_elements
put_element zero v (element u es) = element v es
put_element (suc i) v (element u es) = element u (put_element i v es)

abbrev pub put_child : PathSegment → ConfigValue → ConfigValue → ConfigValue
put_child (key k) u (object ms) = object (put_member k u ms)
put_child (key k) u (scalar s) = scalar s
put_child (key k) u (array es) = array es
put_child (index i) u (array es) = array (put_element i u es)
put_child (index i) u (scalar s) = scalar s
put_child (index i) u (object ms) = object ms

-- A value under new containers, one for each segment.
abbrev pub chain_value : List PathSegment → ConfigValue → ConfigValue
chain_value [] w = w
chain_value (key k ∷ segments) w = object (member k (chain_value segments w) no_members)
chain_value (index i ∷ segments) w = array (element (chain_value segments w) no_elements)

abbrev pub write_child :
    (ConfigValue → Result ConfigValue)
    → PathSegment
    → List PathSegment
    → ConfigValue
    → ConfigValue
    → Option ConfigValue
    → Result ConfigValue
write_child rec s rest w v (some u) = do u' ← rec u; ok (put_child s u' v)
write_child rec s rest w v none =
    if all creatable_segment rest
    then ok (put_child s (chain_value rest w) v)
    else err node_not_found

-- The value `w` written where the segments lead. A value that is there already must have its type.
abbrev pub write_at : List PathSegment → ConfigValue → ConfigValue → Result ConfigValue
write_at [] w v = if type_eq (type_of v) (type_of w) then ok w else err invalid_type
write_at (s ∷ rest) w v = do c ← next_child s v; write_child (write_at rest w) s rest w v c

abbrev pub erase_key : Bytes → Members → Members
erase_key k no_members = no_members
erase_key k (member j v ms) = if bytes_eq j k then ms else member j v (erase_key k ms)

abbrev pub erase_index : ℕ → Elements → Elements
erase_index i no_elements = no_elements
erase_index zero (element v es) = es
erase_index (suc i) (element v es) = element v (erase_index i es)

abbrev pub erase_child : PathSegment → ConfigValue → ConfigValue
erase_child (key k) (object ms) = object (erase_key k ms)
erase_child (key k) (scalar s) = scalar s
erase_child (key k) (array es) = array es
erase_child (index i) (array es) = array (erase_index i es)
erase_child (index i) (scalar s) = scalar s
erase_child (index i) (object ms) = object ms

-- The value without the part to which the segments lead. The root itself is never removed.
abbrev pub erase_at_path : List PathSegment → ConfigValue → Result ConfigValue
erase_at_path [] v = err node_not_found
erase_at_path (s ∷ []) v = do _ ← step_value s v; ok (erase_child s v)
erase_at_path (s ∷ t ∷ rest) v = do
  u ← step_value s v
  u' ← erase_at_path (t ∷ rest) u
  ok (put_child s u' v)
