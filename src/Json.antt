-- ===== src/Json.antt =====
-- backends/json/src/json_interface.cpp: ValueBuilder, which makes a value of the events that the JSON
-- parser reports, and JsonInterface::load. The parser is a library: a parameter that gives the events
-- of a text. Running out of memory, which the source lets through, is not modelled.
pub mod Stream
pub mod Bounds
pub mod Measure
pub mod Limits
pub mod Events
pub mod Accepts
pub mod Round
pub mod Save
use config_manager.Common.{
  ℕ, zero, suc, ◌-◌, ◌^◌, ◌==◌, ltb, Bytes, bytes_eq, Bool, true, false, not, any, all, ◌&&◌, ◌||◌,
  if◌then◌else◌, List, [], ◌∷◌, ◌++◌, Option, none, some, length, Result, ok, err, fault,
  out_of_fuel, ◌>>=◌, parse_error, invalid_version,
}
use config_manager.Common.Int.{ℤ, pos}
use config_manager.Path.{is_key_byte, is_empty}
use config_manager.Value.{
  ConfigValue, scalar, Scalar, monostate, bool, int64, double, string, object_type, type_of,
  type_eq, empty_object, empty_array, set_key, push, contains_key,
}
use config_manager.Model.{ConfigModel, from_value}
use config_manager.Model.Read.{max_tree_depth}
use config_manager.Catalog.{VersionedConfig}
use config_manager.Json.Stream.{Istream, IoState, read_bounded}

pub record LoadLimits : Type 0 where
  pub max_input_bytes : ℕ
  pub max_nodes : ℕ

-- The parser's events. A float comes with its bits and its literal. An exception that leaves the parse
-- is its last event.
pub data Event : Type 0 where
  null_event : Event
  boolean : Bool → Event
  number_integer : ℤ → Event
  number_unsigned : ℕ → Event
  number_float : ℕ → Bytes → Event
  string_event : Bytes → Event
  start_object : Event
  key_event : Bytes → Event
  end_object : Event
  start_array : Event
  end_array : Event
  syntax_error : Event
  exception : Event

pub record Frame : Type 0 where
  pub container : ConfigValue
  pub pending_key : Bytes

-- The stack's top is its first frame; `root` is there once haveRoot_ is set.
pub record ValueBuilder : Type 0 where
  pub nodes : ℕ
  pub stack : List Frame
  pub root : Option ConfigValue
  pub version : Option ℕ
  pub saw_version_key : Bool
  pub next_is_carrier : Bool

abbrev pub new_builder : ValueBuilder
new_builder = record {
  nodes = 0;
  stack = [];
  root = none;
  version = none;
  saw_version_key = false;
  next_is_carrier = false;
}

abbrev pub max_version : ℕ
max_version = 2 ^ 32 - 1

abbrev pub max_int : ℕ
max_int = 2 ^ 63 - 1

-- "__version"
abbrev pub version_key : Bytes
version_key = 95 ∷ 95 ∷ 118 ∷ 101 ∷ 114 ∷ 115 ∷ 105 ∷ 111 ∷ 110 ∷ []

abbrev pub is_path_addressable : Bytes → Bool
is_path_addressable k = not (is_empty k) && all is_key_byte k

-- consumeNode
unfoldable pub consume_node : ℕ → ValueBuilder → Result ValueBuilder
consume_node max b =
    if b.nodes == max then err parse_error else ok (record b { nodes = suc b.nodes })

-- A pending key is moved out of its frame.
unfoldable pub fill_frame : ConfigValue → Frame → Result Frame
unfolding set_key push
fill_frame v f =
    if type_eq (type_of f.container) object_type
    then (do
      c ← set_key f.pending_key v f.container
      ok (record { container = c; pending_key = [] }))
    else (do c ← push v f.container; ok (record f { container = c }))

-- `stack_.back()` of an empty stack is a fault.
unfoldable pub fill_top : ConfigValue → ValueBuilder → List Frame → Result ValueBuilder
unfolding fill_frame
fill_top v b [] = fault
fill_top v b (f ∷ fs) = do g ← fill_frame v f; ok (record b { stack = g ∷ fs })

unfoldable pub attach : ℕ → ConfigValue → ValueBuilder → Result ValueBuilder
unfolding consume_node fill_top
attach max v b =
    if ltb max_tree_depth (length b.stack)
    then err parse_error
    else do c ← consume_node max b; fill_top v c c.stack

unfoldable pub pop_frame : ℕ → ValueBuilder → List Frame → Result ValueBuilder
unfolding consume_node attach
pop_frame max b [] = fault
pop_frame max b (f ∷ []) = do
  c ← consume_node max (record b { stack = [] })
  ok (record c { root = some f.container })
pop_frame max b (f ∷ g ∷ fs) = attach max f.container (record b { stack = g ∷ fs })

-- A value event other than an unsigned number: the root must be an object, and the version carrier a
-- number.
unfoldable pub on_scalar : ℕ → ConfigValue → ValueBuilder → Result ValueBuilder
unfolding attach
on_scalar max v b =
    if is_empty b.stack
    then err parse_error
    else if b.next_is_carrier
    then err invalid_version
    else attach max v b

unfoldable pub on_unsigned : ℕ → ℕ → ValueBuilder → Result ValueBuilder
unfolding attach
on_unsigned max n b =
    if is_empty b.stack
    then err parse_error
    else if b.next_is_carrier
    then if ltb max_version n
      then err invalid_version
      else ok (record b { version = some n; next_is_carrier = false })
    else if ltb max_int n
    then err parse_error
    else attach max (scalar (int64 (pos n))) b

abbrev pub is_float_byte : ℕ → Bool
is_float_byte c = (c == b'.') || (c == b'e') || (c == b'E')

unfoldable pub on_float : ℕ → ℕ → Bytes → ValueBuilder → Result ValueBuilder
unfolding attach
on_float max bits literal b =
    if is_empty b.stack
    then err parse_error
    else if b.next_is_carrier
    then err invalid_version
    else if any is_float_byte literal
    then attach max (scalar (double bits)) b
    else err parse_error

-- A container is opened, after checkContainerDepth.
unfoldable pub open_frame : ConfigValue → ValueBuilder → Result ValueBuilder
open_frame container b =
    if b.next_is_carrier
    then err invalid_version
    else if ltb max_tree_depth (length b.stack)
    then err parse_error
    else ok (record b { stack = record { container = container; pending_key = [] } ∷ b.stack })

unfoldable pub on_array : ValueBuilder → Result ValueBuilder
unfolding open_frame
on_array b = if is_empty b.stack then err parse_error else open_frame empty_array b

unfoldable pub on_key : Bytes → ValueBuilder → List Frame → Result ValueBuilder
on_key k b [] = if is_path_addressable k then fault else err parse_error
on_key k b (f ∷ fs) =
    if not (is_path_addressable k)
    then err parse_error
    else if is_empty fs && bytes_eq k version_key
    then if b.saw_version_key
      then err parse_error
      else ok (record b { saw_version_key = true; next_is_carrier = true })
    else if contains_key f.container k
    then err parse_error
    else ok (record b { stack = record f { pending_key = k } ∷ fs })

-- A callback that returns false ends the parse with the error that it has set, and the handlers of
-- `load` make an exception a ParseError.
unfoldable pub handle : ℕ → Event → ValueBuilder → Result ValueBuilder
unfolding on_scalar on_unsigned on_float open_frame on_array on_key pop_frame
handle max null_event b = on_scalar max (scalar monostate) b
handle max (boolean v) b = on_scalar max (scalar (bool v)) b
handle max (number_integer z) b = on_scalar max (scalar (int64 z)) b
handle max (number_unsigned n) b = on_unsigned max n b
handle max (number_float bits literal) b = on_float max bits literal b
handle max (string_event s) b = on_scalar max (scalar (string s)) b
handle max start_object b = open_frame empty_object b
handle max (key_event k) b = on_key k b b.stack
handle max end_object b = pop_frame max b b.stack
handle max start_array b = on_array b
handle max end_array b = pop_frame max b b.stack
handle max syntax_error b = err parse_error
handle max exception b = err parse_error

unfoldable pub run : ℕ → List Event → ValueBuilder → Result ValueBuilder
unfolding handle
run max [] b = ok b
run max (e ∷ es) b = do c ← handle max e b; run max es c

-- A failure of fromValue becomes a ParseError.
abbrev pub adopt_model : ℕ → Result ConfigModel → Result VersionedConfig
adopt_model v (ok m) = ok (record { version = v; model = m })
adopt_model v (err _) = err parse_error
adopt_model v fault = fault
adopt_model v out_of_fuel = out_of_fuel

abbrev pub finish : Option ℕ → Option ConfigValue → Result VersionedConfig
finish none root = err invalid_version
finish (some v) none = fault
finish (some v) (some root) = adopt_model v (from_value root)

-- JsonInterface::load, over the parser: the configuration and the stream's state afterwards.
unfoldable pub load : (Bytes → List Event) → LoadLimits → Istream → Result VersionedConfig × IoState
unfolding read_bounded run
load events limits input =
    let (bytes, state) = read_bounded input limits.max_input_bytes in
    (
      (do
        text ← bytes
        b ← run limits.max_nodes (events text) new_builder
        finish b.version b.root),
      state,
    )
