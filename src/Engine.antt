-- ===== src/Engine.antt =====
-- src/migration_engine.cpp: the walk from a configuration's version to a target.
pub mod Walk
use config_manager.Common.{
  ℕ, zero, suc, ◌+◌, ◌-◌, ltb, Bool, true, false, if◌then◌else◌, Result, ok, err, fault,
  out_of_fuel, invalid_version, migration_failed,
}
use config_manager.Model.{ConfigModel}
use config_manager.Catalog
use config_manager.Catalog.{
  Called, returned, threw_exception, threw_other, VersionCatalog, VersionedConfig,
}
use config_manager.Registry
use config_manager.Registry.{Applied, applied, rejected, MigrationEdge, MigrationRegistry}

-- What a call of `migrate` leaves: its result, the configuration, and the callbacks' state.
pub record Walked (W : Type 0) : Type 0 where
  pub result : Result (Unit {0})
  pub config : VersionedConfig
  pub world : W

abbrev pub with_model : VersionedConfig → ConfigModel → VersionedConfig
with_model c m = record c { model = m }

-- A round raises the version, so the distance to the target is fuel enough.
abbrev pub rounds : VersionedConfig → ℕ → ℕ
rounds c target = suc (target - c.version)

module _ {W : Type 0} where
  abbrev pub walked : Result (Unit {0}) → VersionedConfig → W → Walked W
  walked r c w = record { result = r; config = c; world = w }

  -- After the callback: any failure is MigrationFailed; on success the version advances and the
  -- loop goes on.
  abbrev pub settle :
      (VersionedConfig → W → Walked W)
      → VersionedConfig
      → ℕ
      → Called Applied × ConfigModel × W
      → Walked W
  settle continue c next (returned applied, m, w) =
      continue (record { version = next; model = m }) w
  settle continue c next (returned (rejected _), m, w) =
      walked (err migration_failed) (with_model c m) w
  settle continue c next (threw_exception, m, w) = walked (err migration_failed) (with_model c m) w
  settle continue c next (threw_other, m, w) = walked (err migration_failed) (with_model c m) w

  abbrev pub take_edge :
      (VersionedConfig → W → Walked W)
      → VersionedConfig
      → W
      → ℕ
      → Result (MigrationEdge W)
      → Walked W
  take_edge continue c w next (ok e) = settle continue c next (e.apply c.model c.version next w)
  take_edge continue c w next (err code) = walked (err code) c w
  take_edge continue c w next fault = walked fault c w
  take_edge continue c w next out_of_fuel = walked out_of_fuel c w

  abbrev pub take_step :
      MigrationRegistry W
      → (VersionedConfig → W → Walked W)
      → VersionedConfig
      → W
      → Result ℕ
      → Walked W
  take_step r continue c w (ok next) = take_edge continue c w next (Registry.find r c.version next)
  take_step r continue c w (err code) = walked (err code) c w
  take_step r continue c w fault = walked fault c w
  take_step r continue c w out_of_fuel = walked out_of_fuel c w

  -- The loop `while (current < target)`; `current` is the configuration's version throughout.
  unfoldable pub walk :
      VersionCatalog W → MigrationRegistry W → ℕ → ℕ → VersionedConfig → W → Walked W
  walk cat reg target zero c w = walked out_of_fuel c w
  walk cat reg target (suc fuel) c w =
      let step = λ (u : Unit {0}).
        take_step reg (λ c' w'. walk cat reg target fuel c' w') c w
          (Catalog.next_version cat c.version) in
      if ltb c.version target then step tt else walked (ok tt) c w

  unfoldable pub migrate :
      VersionCatalog W → MigrationRegistry W → VersionedConfig → ℕ → W → Walked W
  unfolding walk
  migrate cat reg c target w =
      if Catalog.contains cat target
      then if ltb target c.version
        then walked (err invalid_version) c w
        else walk cat reg target (rounds c target) c w
      else walked (err invalid_version) c w
