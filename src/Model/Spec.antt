-- ===== src/Model/Spec.antt =====
-- The specification of the model's reads: on values, with no arena in sight.
use config_manager.Common.{
  ℕ, zero, suc, Bytes, bytes_eq, false, if◌then◌else◌, List, [], ◌∷◌, ◌≡◌, Result, ok, err, ◌>>=◌,
  invalid_type, node_not_found,
}
use config_manager.Path.{PathSegment, key, index}
use config_manager.Value.{
  ConfigValue, scalar, object, array, Members, no_members, member, Elements, no_elements, element,
  has_key,
}

-- The first member of that name.
abbrev pub get_member : Bytes → Members → Result ConfigValue
get_member k no_members = err node_not_found
get_member k (member j v ms) = if bytes_eq j k then ok v else get_member k ms

abbrev pub get_element : ℕ → Elements → Result ConfigValue
get_element i no_elements = err node_not_found
get_element zero (element v es) = ok v
get_element (suc i) (element v es) = get_element i es

abbrev pub step_value : PathSegment → ConfigValue → Result ConfigValue
step_value (key k) (object ms) = get_member k ms
step_value (key k) (scalar _) = err invalid_type
step_value (key k) (array _) = err invalid_type
step_value (index i) (array es) = get_element i es
step_value (index i) (scalar _) = err invalid_type
step_value (index i) (object _) = err invalid_type

-- The value that a path leads to.
abbrev pub value_at : ConfigValue → List PathSegment → Result ConfigValue
value_at v [] = ok v
value_at v (s ∷ segments) = do u ← step_value s v; value_at u segments

-- No object of the value has two members of one name.
abbrev mutual
  pub HasUniqueKeys : ConfigValue → Type 0
  HasUniqueKeys (scalar s) = Unit {0}
  HasUniqueKeys (object ms) = AreUnique ms
  HasUniqueKeys (array es) = AllHaveUniqueKeys es

  pub AreUnique : Members → Type 0
  AreUnique no_members = Unit {0}
  AreUnique (member k v ms) = (has_key k ms ≡ false) × HasUniqueKeys v × AreUnique ms

  pub AllHaveUniqueKeys : Elements → Type 0
  AllHaveUniqueKeys no_elements = Unit {0}
  AllHaveUniqueKeys (element v es) = HasUniqueKeys v × AllHaveUniqueKeys es
