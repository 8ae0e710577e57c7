-- ===== src/Runtime.antt =====
-- src/config_runtime.cpp: inspection, synchronisation and repair.
pub mod Laws
use config_manager.Common.{
  ℕ, zero, suc, ltb, ◌==◌, Bytes, Bool, true, false, ◌||◌, ◌++◌, if◌then◌else◌, List, [], ◌∷◌,
  Result, ok, err, fault, out_of_fuel, ◌>>=◌, ◌>>◌, invalid_version,
}
use config_manager.Path.{is_empty}
use config_manager.Value.{ConfigValue, NodeType, object_type, type_eq}
use config_manager.Node
use config_manager.Node.{ConfigNode}
use config_manager.Model
use config_manager.Model.{ConfigModel}
use config_manager.Catalog
use config_manager.Catalog.{VersionCatalog, VersionedConfig}
use config_manager.Registry
use config_manager.Registry.{MigrationRegistry}
use config_manager.Engine
use config_manager.Engine.{Walked}

pub data SyncStatus : Type 0 where
  in_sync upgrade_required downgrade_required : SyncStatus

pub record SyncState : Type 0 where
  pub current_version : ℕ
  pub target_version : ℕ
  pub status : SyncStatus

pub record ConfigRuntime (W : Type 0) : Type 0 where
  pub catalog : VersionCatalog W
  pub registry : MigrationRegistry W

-- A step of the repair returns whether it added a key, and the model after it.
abbrev pub Repair : Type 0
Repair = ConfigModel → Result Bool × ConfigModel

abbrev pub repair_then : Result Bool × ConfigModel → (Bool → Repair) → Result Bool × ConfigModel
repair_then (ok b, m) k = k b m
repair_then (err e, m) k = (err e, m)
repair_then (fault, m) k = (fault, m)
repair_then (out_of_fuel, m) k = (out_of_fuel, m)

-- The parts that only read: on an error the model is as it was.
abbrev pub reading {ℓ} : {A : Type ℓ} → Result A → (A → Repair) → Repair
reading (ok x) k m = k x m
reading (err e) k m = (err e, m)
reading fault k m = (fault, m)
reading out_of_fuel k m = (out_of_fuel, m)

abbrev pub written : Result (Unit {0}) × ConfigModel → Result Bool × ConfigModel
written (ok _, m) = (ok true, m)
written (err e, m) = (err e, m)
written (fault, m) = (fault, m)
written (out_of_fuel, m) = (out_of_fuel, m)

abbrev pub child_path : Bytes → Bytes → Bytes
child_path path k = if is_empty path then k else path ++ b'.' ∷ k

-- The key is absent: the default subtree is copied.
unfoldable pub copy_default : ConfigModel → Bytes → Repair
copy_default defaults path m =
    reading (Model.get_value defaults path) (λ subtree m'. written (Model.set m' path subtree)) m

-- The key is present: the repair descends only where both hold an object.
unfoldable pub descend : (ConfigNode → Bytes → Repair) → ConfigModel → ConfigNode → Bytes → Repair
descend rec defaults node path m =
    reading (Node.type defaults.arena node)
      (λ t m₁.
        if type_eq t object_type
        then reading (Model.node_at m₁ path)
            (λ mine m₂.
              reading (Node.type m₂.arena mine)
                (λ u m₃. if type_eq u object_type then rec node path m₃ else (ok false, m₃)) m₂)
            m₁
        else (ok false, m₁))
      m

-- One key of fillMissing's loop.
unfoldable pub fill_key :
    (ConfigNode → Bytes → Repair) → ConfigModel → ConfigNode → Bytes → Bytes → Repair
unfolding copy_default descend
fill_key rec defaults node path k m =
    reading (Node.child defaults.arena node k)
      (λ d m₁.
        reading (Model.contains m₁ (child_path path k))
          (λ present m₂.
            if present
            then descend rec defaults d (child_path path k) m₂
            else copy_default defaults (child_path path k) m₂)
          m₁)
      m

unfoldable pub fill_keys : (Bytes → Repair) → List Bytes → Bool → Repair
fill_keys fill [] added m = (ok added, m)
fill_keys fill (k ∷ ks) added m = repair_then (fill k m) (λ b. fill_keys fill ks (added || b))

unfoldable pub fill_missing : ℕ → ConfigModel → ConfigNode → Bytes → Repair
unfolding fill_key fill_keys
fill_missing zero defaults node path m = (out_of_fuel, m)
fill_missing (suc fuel) defaults node path m =
    reading (Node.keys defaults.arena node)
      (λ ks. fill_keys (fill_key (fill_missing fuel defaults) defaults node path) ks false) m

unfoldable pub inspect : VersionedConfig → ℕ → SyncState
inspect cfg supported = record {
  current_version = cfg.version;
  target_version = supported;
  status =
      if ltb cfg.version supported
      then upgrade_required
      else if ltb supported cfg.version
      then downgrade_required
      else in_sync;
}

pub record Synced (W : Type 0) : Type 0 where
  pub result : Result SyncStatus
  pub config : VersionedConfig
  pub world : W

abbrev working_copy : VersionedConfig → VersionedConfig
working_copy cfg = record cfg { model = Model.clone cfg.model }

abbrev with_version : {W : Type 0} → ℕ → Result ConfigModel × W → Result VersionedConfig × W
with_version v (ok m, w) = (ok (record { version = v; model = m }), w)
with_version v (err e, w) = (err e, w)
with_version v (fault, w) = (fault, w)
with_version v (out_of_fuel, w) = (out_of_fuel, w)

module _ {W : Type 0} where
  unfoldable pub create : VersionCatalog W → MigrationRegistry W → Result (ConfigRuntime W)
  create c r =
      if is_empty (Catalog.versions c)
      then err invalid_version
      else Registry.validate r c >> ok (record { catalog = c; registry = r })

  unfoldable pub supports_version : ConfigRuntime W → ℕ → Bool
  supports_version rt v = Catalog.contains rt.catalog v

  abbrev repair_with : ConfigModel → Result ConfigModel × W → Result Bool × ConfigModel × W
  repair_with m (ok defaults, w) =
      let (r, m') =
        reading (Model.root defaults)
          (λ node. fill_missing (Model.enough defaults.arena) defaults node []) m in
      (r, m', w)
  repair_with m (err e, w) = (err e, m, w)
  repair_with m (fault, w) = (fault, m, w)
  repair_with m (out_of_fuel, w) = (out_of_fuel, m, w)

  unfoldable pub repair : ConfigRuntime W → ConfigModel → ℕ → W → Result Bool × ConfigModel × W
  unfolding fill_missing
  repair rt m target w = repair_with m (Catalog.create_default rt.catalog target w)

  abbrev pub synced : Result SyncStatus → VersionedConfig → W → Synced W
  synced r c w = record { result = r; config = c; world = w }

  -- Step 4: the single mutation of the caller's configuration.
  abbrev pub commit : VersionedConfig → ℕ → Bool → Result Bool × ConfigModel × W → Synced W
  commit cfg v migrated (ok repaired, m, w) =
      synced (ok in_sync) (if migrated || repaired then record { version = v; model = m } else cfg)
        w
  commit cfg v migrated (err e, m, w) = synced (err e) cfg w
  commit cfg v migrated (fault, m, w) = synced fault cfg w
  commit cfg v migrated (out_of_fuel, m, w) = synced out_of_fuel cfg w

  -- Steps 3 and 4, on the working copy.
  unfoldable pub repair_and_commit :
      ConfigRuntime W → VersionedConfig → ℕ → Bool → VersionedConfig → W → Synced W
  repair_and_commit rt cfg supported migrated working w =
      commit cfg working.version migrated (repair rt working.model supported w)

  abbrev pub after_migration :
      ConfigRuntime W → VersionedConfig → ℕ → Walked W → Result (Unit {0}) → Synced W
  after_migration rt cfg supported done (ok _) =
      repair_and_commit rt cfg supported true done.config done.world
  after_migration rt cfg supported done (err e) = synced (err e) cfg done.world
  after_migration rt cfg supported done fault = synced fault cfg done.world
  after_migration rt cfg supported done out_of_fuel = synced out_of_fuel cfg done.world

  abbrev pub synchronize_as : ConfigRuntime W → VersionedConfig → ℕ → W → SyncStatus → Synced W
  synchronize_as rt cfg supported w downgrade_required = synced (ok downgrade_required) cfg w
  synchronize_as rt cfg supported w in_sync =
      repair_and_commit rt cfg supported false (working_copy cfg) w
  synchronize_as rt cfg supported w upgrade_required =
      if Catalog.contains rt.catalog cfg.version
      then (let done = Engine.migrate rt.catalog rt.registry (working_copy cfg) supported w in
          after_migration rt cfg supported done done.result)
      else synced (err invalid_version) cfg w

  unfoldable pub synchronize : ConfigRuntime W → VersionedConfig → ℕ → W → Synced W
  unfolding inspect repair_and_commit
  synchronize rt cfg supported w =
      if Catalog.contains rt.catalog supported
      then synchronize_as rt cfg supported w (inspect cfg supported).status
      else synced (err invalid_version) cfg w

  abbrev pub synchronize_to : ConfigRuntime W → VersionedConfig → W → Result ℕ → Synced W
  synchronize_to rt cfg w (ok v) = synchronize rt cfg v w
  synchronize_to rt cfg w (err e) = synced (err e) cfg w
  synchronize_to rt cfg w fault = synced fault cfg w
  synchronize_to rt cfg w out_of_fuel = synced out_of_fuel cfg w

  unfoldable pub synchronize_latest : ConfigRuntime W → VersionedConfig → W → Synced W
  synchronize_latest rt cfg w = synchronize_to rt cfg w (Catalog.latest_version rt.catalog)

  unfoldable pub create_default : ConfigRuntime W → ℕ → W → Result VersionedConfig × W
  create_default rt v w = with_version v (Catalog.create_default rt.catalog v w)
