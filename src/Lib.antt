-- ===== src/Lib.antt =====
-- config-manager: a C++ library for versioned configurations. A configuration is a tree of scalars,
-- objects and arrays with a version number. A program reads and writes it by paths such as
-- `servers[0].host`, and a runtime brings a stored configuration to the version the program supports:
-- it runs the registered migrations one version at a time and then fills in missing defaults.
--
-- The parts, and the files that model them:
--
-- - Common: lists, tests and numbers the parts share, and `Result` of
--   include/configmanager/result.hpp. An error carries its code only; the messages are left out. Two
--   more outcomes are the model's own: `fault` is a failed assertion or an access out of range, and
--   `out_of_fuel` is a loop that was cut off.
-- - Path: `ConfigPath::parse` of src/config_path.cpp, over the bytes of the text. Path/Grammar is the
--   grammar of paths as data types, and the other children compare the two. The parser's loops run
--   on the length of the text and one more.
-- - Value: `ConfigValue` of src/config_value.cpp and include/configmanager/config_value.hpp, with
--   `of` and its preconditions. Value/Index is the map from a key to its position, with the values
--   themselves abstract. A double is its 64 bits.
-- - Arena: `NodeArena` of src/node_arena.hpp: slots, the free list threaded through the parents, and
--   32-bit ids and generations that wrap around. Arena/State passes the arena from step to step;
--   Arena/Slots says which slots are owned and which are free.
-- - Model: `ConfigModel` of src/config_model.cpp. Model/Read has what reads the arena, Model/Store
--   what builds and frees trees in it, Model/Plan the two phases of a write. Model/Tree relates the
--   slots to a tree, Model/Spec is what the reads mean on values, Model/Invariant says what a
--   well-formed model is; Model/Build, Model/Release and Model/Assign follow the functions that write
--   the arena, and Model/Create and Model/Reads are about the operations of the model. Model/Edit is
--   the specification of `set` and `remove` on values, with what relates `planWrite`, `applyWrite`
--   and the unlinking to it, and Model/Writes is about the two operations as a whole. The recursion
--   over the arena runs on fuel, one round for each slot and one more.
-- - Node: `ConfigNode` of src/config_node.cpp, handles with a generation, and Node/Convert:
--   `detail::convertScalar` of include/configmanager/config_node.hpp to bool, string and the integer
--   types.
-- - Catalog: `VersionCatalog` of src/version_catalog.cpp, the registered versions with the factories
--   of their defaults. A factory and a migration callback are the program's code: each is a function
--   of the callbacks' own state, a parameter `W`, and may return, reject or throw.
-- - Registry: `MigrationRegistry` of src/migration_registry.cpp, the edges between versions, and the
--   rules by which they are checked against a catalog.
-- - Engine: `MigrationEngine` of src/migration_engine.cpp, the loop over the versions. The distance
--   to the target is its fuel.
-- - Runtime: `ConfigRuntime` of src/config_runtime.cpp: `create`, `inspect`, `synchronize`, the
--   repair and the defaults. A synchronisation works on a clone and commits in one assignment.
-- - Json: `JsonInterface::load` of backends/json/src/json_interface.cpp: the `ValueBuilder`
--   and, in Json/Stream, `readBounded`. The JSON parser is a library, so a parameter gives the events
--   of a text. Json/Bounds has the limit on bytes; Json/Limits has those on nodes, depth and version,
--   by the counts of Json/Measure. Json/Save is `toJson` and `JsonInterface::save`, over the library's
--   `dump` and the stream's write. The handlers around load and save are in the definitions.
--   Json/Events has the events of a document, Json/Accepts what the builder makes of them, and
--   Json/Round follows a load of what was saved.
-- - Checkpoint: `CheckpointStore` of checkpoint/src/checkpoint_store.cpp in its POSIX form.
--   Checkpoint/Host has the system calls, `std::filesystem` and the paths, which are parameters, and
--   actions on the world they change; Checkpoint/Names and Checkpoint/Chunks are the pure parts,
--   Checkpoint/Files reads, writes and lists, Checkpoint/Restore and Checkpoint/Prune are the two
--   loops over the checkpoints, and Checkpoint/Sort is the sort of both. Checkpoint/Outcome says
--   what an action ends in, and Checkpoint/Verify follows the verification of the files from world to
--   world. Checkpoint/Storage states what is documented of the calls and Checkpoint/Atomic follows a
--   write through them. The loop of ::write takes its fuel as an argument, a round for each call.
--
-- Not modelled: running out of memory (the guards that free a partial tree then), error messages,
-- moves and destruction of a model, the conversion of scalars to floating-point types,
-- the XML backend under backends/xml, the checkpoint store's calls on Windows,
-- what a read leaves in a stream's buffer, and the text parsers, which are libraries.
pub mod Common
pub mod Path
pub mod Value
pub mod Arena
pub mod Model
pub mod Node
pub mod Catalog
pub mod Registry
pub mod Engine
pub mod Runtime
pub mod Json
pub mod Checkpoint
mod Tests
