-- ===== src/Json/Save.antt =====
-- toJson and JsonInterface::save of backends/json/src/json_interface.cpp. A document of the JSON library
-- is the tree of its members, elements and scalars, a ConfigValue; the library's `dump` of it, which
-- throws on a text that is not UTF-8, and the stream's write are parameters. Running out of memory,
-- which the source lets through, is not modelled.
pub mod Laws
pub mod Whole
use config_manager.Common.{
  ℕ, zero, suc, ◌^◌, ◌/◌, ◌%◌, ◌==◌, Bytes, Bool, true, false, not, if◌then◌else◌, List, [], ◌∷◌,
  ◌++◌, Result, ok, err, fault, out_of_fuel, ◌>>=◌, serialization_error,
}
use config_manager.Common.Int.{pos}
use config_manager.Value.{
  ConfigValue, scalar, object, array, Members, no_members, member, Elements, no_elements, element,
  Scalar, monostate, bool, int64, double, string, NodeType, null_type, bool_type, int_type,
  double_type, string_type, object_type, array_type,
}
use config_manager.Arena.{Arena}
use config_manager.Node
use config_manager.Node.{ConfigNode}
use config_manager.Model
use config_manager.Model.{ConfigModel, enough}
use config_manager.Catalog.{VersionedConfig, Called, returned, threw_exception, threw_other}
use config_manager.Json.{version_key}

-- `value()`, which throws on an error; the handlers of `save` make that a SerializationError.
abbrev pub unwrap {ℓ} : {A : Type ℓ} → Result A → Result A
unwrap (ok x) = ok x
unwrap (err e) = err serialization_error
unwrap fault = fault
unwrap out_of_fuel = out_of_fuel

-- std::isfinite on the bits of a double: the exponent is not all ones
abbrev pub is_finite : ℕ → Bool
is_finite bits = not (((bits / 2 ^ 52) % 2 ^ 11) == 2047)

abbrev pub scalar_document : NodeType → Scalar → Result ConfigValue
scalar_document null_type s = ok (scalar monostate)
scalar_document bool_type (bool b) = ok (scalar (bool b))
scalar_document int_type (int64 z) = ok (scalar (int64 z))
scalar_document double_type (double d) =
    if is_finite d then ok (scalar (double d)) else err serialization_error
scalar_document string_type (string s) = ok (scalar (string s))
scalar_document _ _ = fault

unfoldable pub members_document :
    (ConfigNode → Result ConfigValue) → List (Bytes × ConfigNode) → Result Members
members_document rec [] = ok no_members
members_document rec ((k, node) ∷ ms) = do
  child ← rec node
  rest ← members_document rec ms
  ok (member k child rest)

-- The loop over the indices from `i`, `count` of them.
unfoldable pub elements_document :
    (ConfigNode → Result ConfigValue) → Arena → ConfigNode → ℕ → ℕ → Result Elements
elements_document rec a node zero i = ok no_elements
elements_document rec a node (suc count) i = do
  child ← unwrap (Node.at a node i)
  document ← rec child
  rest ← elements_document rec a node count (suc i)
  ok (element document rest)

unfoldable pub node_document :
    (ConfigNode → Result ConfigValue) → Arena → ConfigNode → NodeType → Result ConfigValue
unfolding members_document elements_document
node_document rec a node object_type = do
  members ← unwrap (Node.members a node)
  documents ← members_document rec members
  ok (object documents)
node_document rec a node array_type = do
  size ← Node.size a node
  documents ← elements_document rec a node size 0
  ok (array documents)
node_document rec a node type = do s ← unwrap (Node.scalar_value a node); scalar_document type s

unfoldable pub to_json : ℕ → Arena → ConfigNode → Result ConfigValue
unfolding node_document
to_json zero a node = out_of_fuel
to_json (suc fuel) a node = do type ← Node.type a node; node_document (to_json fuel a) a node type

abbrev pub with_carrier : ℕ → Members → ConfigValue
with_carrier version ms = object (member version_key (scalar (int64 (pos version))) ms)

-- The document, without the carrier's name in the model.
unfoldable pub document_of : VersionedConfig → Result ConfigValue
unfolding to_json members_document
document_of config = do
  root ← Model.root config.model
  members ← unwrap (Node.members config.model.arena root)
  documents ← members_document (to_json (enough config.model.arena) config.model.arena) members
  ok (with_carrier config.version documents)

abbrev unless_carrier : VersionedConfig → Bool → Result ConfigValue
unless_carrier config carried = if carried then err serialization_error else document_of config

-- What the handlers of `save` make of a call.
abbrev pub or_serialization_error : {A : Type 0} → Called A → Result A
or_serialization_error (returned x) = ok x
or_serialization_error threw_exception = err serialization_error
or_serialization_error threw_other = err serialization_error

-- JsonInterface::save: the bytes that it writes, over the library's `dump` and a stream whose `write`
-- tells whether the stream is still good, or throws as its exception mask demands; the text and the line
-- feed are one write.
unfoldable pub save :
    (ConfigValue → Called Bytes) → (Bytes → Called Bool) → VersionedConfig → Result Bytes
unfolding document_of
save dump write config = do
  carried ← Model.contains config.model version_key
  document ← unless_carrier config carried
  text ← or_serialization_error (dump document)
  is_good ← or_serialization_error (write (text ++ b'\n' ∷ []))
  if is_good then ok (text ++ b'\n' ∷ []) else err serialization_error
