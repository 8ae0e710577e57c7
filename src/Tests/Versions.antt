-- ===== src/Tests/Versions.antt =====
-- The catalog, the registry, the engine and the runtime at a catalog of the versions 1, 2 and 4. The
-- callbacks' state counts the migrations that were called.
use config_manager.Common.{
  ℕ, suc, ◌≡◌, ◌≢◌, ◌↔◌, ◌≤◌, ◌<◌, ◌&&◌, ◌||◌, ◌==◌, refl, true, [], ◌∷◌, any, is_ok, some, ok,
  arith,
}
use config_manager.Value.{ConfigValue, object, no_members, member, scalar, bool}
use config_manager.Model.{ConfigModel}
use config_manager.Arena
use config_manager.Arena.State
use config_manager.Model
use config_manager.Model.Store
use config_manager.Node
use config_manager.Catalog
use config_manager.Catalog.{
  VersionArtifact, VersionCatalog, VersionedConfig, returned, threw_other, DefaultFactory,
}
use config_manager.Catalog.Order.{Ascending, NextIn}
use config_manager.Catalog.Laws.{
  contains-versions, register-Ascending, contains-register, next_version_iff, latest_version_iff,
}
use config_manager.Registry
use config_manager.Registry.{MigrationEdge, MigrationRegistry, MigrationFn, applied, rejected}
use config_manager.Registry.Laws.{AllAdjacent, HasChain, validate_iff, find-validated}
use config_manager.Engine
use config_manager.Engine.Walk.{Ends, migrate-Ends}
use config_manager.Runtime
use config_manager.Runtime.{ConfigRuntime, in_sync, downgrade_required}
use config_manager.Runtime.Laws.{
  synchronize-Untouched, synchronize-downgrade_iff, synchronize-version,
}

abbrev defaults : DefaultFactory ℕ
defaults w = (returned (object (member (b'a' ∷ []) (scalar (bool true)) no_members)), w)

abbrev artifact : ℕ → VersionArtifact ℕ
artifact v = record { version = v; default_factory = some defaults }

abbrev catalog : VersionCatalog ℕ
catalog = record { entries = artifact 1 ∷ artifact 2 ∷ artifact 4 ∷ [] }

abbrev count_call : MigrationFn ℕ
count_call m from to w = (returned applied, m, suc w)

abbrev step : ℕ → ℕ → MigrationEdge ℕ
step v w = record { from = v; to = w; apply = count_call }

abbrev registry : MigrationRegistry ℕ
registry = record { edges = step 2 4 ∷ step 1 2 ∷ [] }

-- A model of an empty root object.
abbrev pub model : ConfigModel
model = record {
  arena = record {
    nodes = Arena.new_node config_manager.Value.object_type ∷ [];
    free_head = Arena.node_id_none;
  };
  root_id = 0;
}

abbrev config : ℕ → VersionedConfig
config v = record { version = v; model = model }

abbrev runtime : ConfigRuntime ℕ
runtime = record { catalog = catalog; registry = registry }

catalog-Ascending : Ascending catalog.entries
catalog-Ascending = omega arith

valid : Registry.validate registry catalog ≡ ok tt
unfolding Registry.validate Catalog.next_version Catalog.versions
valid = refl

next_of_2 : Catalog.next_version catalog 2 ≡ ok 4
unfolding Catalog.next_version
next_of_2 = refl

has_1 : Catalog.contains catalog 1 ≡ true
unfolding Catalog.contains
has_1 = refl

has_4 : Catalog.contains catalog 4 ≡ true
unfolding Catalog.contains
has_4 = refl

-- Two migrations lead from version 1 to 4.
migrate_counts : (Engine.migrate catalog registry (config 1) 4 0).world ≡ 2
unfolding Engine.migrate Catalog.next_version Registry.find
migrate_counts = refl

contains-versions_example :
    Catalog.contains catalog 3 ≡ any (λ u. u == 3) (Catalog.versions catalog)
contains-versions_example = contains-versions catalog 3 catalog-Ascending

register-Ascending_example : Ascending (Catalog.register (artifact 3) catalog).1.entries
register-Ascending_example = register-Ascending (artifact 3) catalog catalog-Ascending

contains-register_example :
    Catalog.contains (Catalog.register (artifact 3) catalog).1 3
    ≡ (Catalog.contains catalog 3 || (is_ok (Catalog.register (artifact 3) catalog).0 && (3 == 3)))
contains-register_example = contains-register (artifact 3) catalog 3 catalog-Ascending

next_version_iff_example :
    (Catalog.next_version catalog 2 ≡ ok 4)
    ↔ ((Catalog.contains catalog 2 ≡ true) × NextIn catalog.entries 2 4)
next_version_iff_example = next_version_iff catalog 2 4 catalog-Ascending

latest_version_iff_example :
    (Catalog.latest_version catalog ≡ ok 4)
    ↔ ((Catalog.contains catalog 4 ≡ true) × ((u : ℕ) → Catalog.contains catalog u ≡ true → u ≤ 4))
latest_version_iff_example = latest_version_iff catalog 4 catalog-Ascending

validate_iff_example :
    (Registry.validate registry catalog ≡ ok tt)
    ↔ (AllAdjacent catalog registry.edges × HasChain registry.edges (Catalog.versions catalog))
validate_iff_example = validate_iff registry catalog catalog-Ascending

find-validated_example :
    (e : MigrationEdge ℕ) × (Registry.find registry 2 4 ≡ ok e) × (e.from ≡ 2) × (e.to ≡ 4)
find-validated_example = find-validated registry catalog 2 4 catalog-Ascending valid next_of_2

migrate-Ends_example :
    Ends catalog registry 4 (config 1) 0 (Engine.migrate catalog registry (config 1) 4 0)
migrate-Ends_example =
    migrate-Ends catalog registry catalog-Ascending 4 (config 1) 0 valid has_4 has_1 (omega arith)

downgrade_runs : (Runtime.synchronize runtime (config 9) 4 0).result ≡ ok downgrade_required
unfolding Runtime.synchronize Catalog.contains
downgrade_runs = refl

not_in_sync : (Runtime.synchronize runtime (config 9) 4 0).result ≢ ok in_sync
not_in_sync e = ground (arith, downgrade_runs)

synchronize-Untouched_example : (Runtime.synchronize runtime (config 9) 4 0).config ≡ config 9
synchronize-Untouched_example = synchronize-Untouched runtime (config 9) 4 0 not_in_sync

synchronize-downgrade_iff_example :
    ((Runtime.synchronize runtime (config 9) 4 0).result ≡ ok downgrade_required)
    ↔ ((Catalog.contains catalog 4 ≡ true) × (4 < 9))
synchronize-downgrade_iff_example = synchronize-downgrade_iff runtime (config 9) 4 0

-- A catalog whose one factory makes an empty object.
abbrev bare : ConfigRuntime ℕ
bare = record {
  catalog = record {
    entries =
        record { version = 4; default_factory = some (λ w. (returned (object no_members), w)) }
        ∷ [];
  };
  registry = record { edges = [] };
}

bare-Ascending : Ascending bare.catalog.entries
bare-Ascending = (tt, tt)

bare_valid : Registry.validate bare.registry bare.catalog ≡ ok tt
unfolding Registry.validate Catalog.versions
bare_valid = refl

bare_runs : (Runtime.synchronize bare (config 4) 4 0).result ≡ ok in_sync
unfolding Runtime.synchronize Catalog.contains Runtime.repair Catalog.create_default
    Model.from_value State.load Arena.get Store.begin State.new State.modify State.free
    Arena.release Model.root Node.keys
bare_runs = refl

synchronize-version_example : (Runtime.synchronize bare (config 4) 4 0).config.version ≡ 4
synchronize-version_example =
    synchronize-version bare (config 4) 4 0 bare-Ascending bare_valid bare_runs
