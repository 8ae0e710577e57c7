-- ===== src/Value.antt =====
-- include/configmanager/config_value.hpp and src/config_value.cpp: the recursive value tree. A
-- double is its bit pattern. The hash index of an object's keys is modelled in Value/Index, which
-- shows that the member list alone determines it; here an object is its member list.
pub mod Index
use config_manager.Common.{
  ℕ, zero, suc, ◌+◌, ◌^◌, ◌<◌, Bytes, bytes_eq, Bool, true, false, ◌||◌, ltb, if◌then◌else◌, Option,
  none, some, [], Result, ok, fault, not, ◌==◌,
}
use config_manager.Common.Int.{ℤ, pos}

pub data NodeType : Type 0 where
  null_type bool_type int_type double_type string_type object_type array_type : NodeType

-- std::variant<std::monostate, bool, std::int64_t, double, std::string>
pub data Scalar : Type 0 where
  monostate : Scalar
  bool : Bool → Scalar
  int64 : ℤ → Scalar
  double : ℕ → Scalar
  string : Bytes → Scalar

mutual
  pub data ConfigValue : Type 0 where
    scalar : Scalar → ConfigValue
    object : Members → ConfigValue
    array : Elements → ConfigValue

  pub data Members : Type 0 where
    no_members : Members
    member : Bytes → ConfigValue → Members → Members

  pub data Elements : Type 0 where
    no_elements : Elements
    element : ConfigValue → Elements → Elements

abbrev pub scalar_type : Scalar → NodeType
scalar_type monostate = null_type
scalar_type (bool _) = bool_type
scalar_type (int64 _) = int_type
scalar_type (double _) = double_type
scalar_type (string _) = string_type

abbrev pub type_of : ConfigValue → NodeType
type_of (scalar s) = scalar_type s
type_of (object _) = object_type
type_of (array _) = array_type

abbrev pub tag : NodeType → ℕ
tag null_type = 0
tag bool_type = 1
tag int_type = 2
tag double_type = 3
tag string_type = 4
tag object_type = 5
tag array_type = 6

abbrev pub type_eq : NodeType → NodeType → Bool
type_eq t u = tag t == tag u

abbrev pub empty_object : ConfigValue
empty_object = object no_members

abbrev pub empty_array : ConfigValue
empty_array = array no_elements

unfoldable pub has_key : Bytes → Members → Bool
has_key k no_members = false
has_key k (member j v ms) = bytes_eq j k || has_key k ms

-- Replaces the first member of that name in place, or appends.
unfoldable pub put_member : Bytes → ConfigValue → Members → Members
put_member k v no_members = member k v no_members
put_member k v (member j w ms) =
    if bytes_eq j k then member j v ms else member j w (put_member k v ms)

unfoldable pub append_element : ConfigValue → Elements → Elements
append_element v no_elements = element v no_elements
append_element v (element w es) = element w (append_element v es)

-- The assertion `type_ == NodeType::Object` is a fault where it fails.
unfoldable pub set_key : Bytes → ConfigValue → ConfigValue → Result ConfigValue
unfolding put_member
set_key k child (object ms) = ok (object (put_member k child ms))
set_key k child (scalar _) = fault
set_key k child (array _) = fault

unfoldable pub push : ConfigValue → ConfigValue → Result ConfigValue
unfolding append_element
push child (array es) = ok (array (append_element child es))
push child (scalar _) = fault
push child (object _) = fault

-- false for every type but an object
unfoldable pub contains_key : ConfigValue → Bytes → Bool
unfolding has_key
contains_key (object ms) k = has_key k ms
contains_key (scalar _) k = false
contains_key (array _) k = false

-- The C++ types that `ConfigValue::of` accepts: a float is widened to a double before; a C string
-- is a null pointer or the bytes that it points to.
pub data HostValue : Type 0 where
  host_bool : Bool → HostValue
  host_signed : ℤ → HostValue
  host_unsigned : ℕ → HostValue
  host_double : ℕ → HostValue
  host_string : Bytes → HostValue
  host_c_string : Option Bytes → HostValue

-- ofPreconditionViolation: a message, or none
unfoldable pub violates : HostValue → Bool
violates (host_unsigned n) = not (ltb n (2 ^ 63))
violates (host_c_string none) = true
violates _ = false

abbrev c_string_scalar : Option Bytes → Scalar
c_string_scalar none = string []
c_string_scalar (some s) = string s

abbrev host_scalar : HostValue → Scalar
host_scalar (host_bool b) = bool b
host_scalar (host_signed z) = int64 z
host_scalar (host_unsigned n) = int64 (pos n)
host_scalar (host_double d) = double d
host_scalar (host_string s) = string s
host_scalar (host_c_string s) = c_string_scalar s

-- ConfigValue::of: `none` where it throws.
unfoldable pub of_host : HostValue → Option ConfigValue
unfolding violates
of_host h = if violates h then none else some (scalar (host_scalar h))
