-- ===== src/Runtime/Laws.antt =====
-- Synchronisation is a transaction, and what its success says.
use config_manager.Common.{
  ℕ, ◌<◌, ◌≡◌, ◌≢◌, ◌↔◌, inl, inr, refl, Bool, true, false, Bool-cases, arith, Result, ok, err,
  fault, out_of_fuel,
}
use config_manager.Model.{ConfigModel, clone}
use config_manager.Catalog
use config_manager.Catalog.{VersionCatalog, VersionedConfig}
use config_manager.Catalog.Order.{Ascending}
use config_manager.Registry
use config_manager.Registry.{MigrationRegistry}
use config_manager.Engine
use config_manager.Engine.{Walked}
use config_manager.Engine.Walk.{Ends, reached, stopped, migrate-Ends}
use config_manager.Runtime.{
  SyncStatus, in_sync, upgrade_required, downgrade_required, ConfigRuntime, inspect, repair, commit,
  repair_and_commit, after_migration, synchronize_as, synchronize,
}

module _ {W : Type 0} where
  -- Where `synchronize` does not report that the configuration is in step, so on every error and on
  -- the report that it is newer, the caller's configuration is the one it was called with.
  pub synchronize-Untouched :
      (rt : ConfigRuntime W) (cfg : VersionedConfig) (supported : ℕ) (w : W)
      → (synchronize rt cfg supported w).result ≢ ok in_sync
      → (synchronize rt cfg supported w).config ≡ cfg
  unfolding synchronize
  synchronize-Untouched rt cfg supported w h = ground arith

  -- `synchronize` reports that the configuration is newer exactly when the supported version is
  -- registered and below the configuration's.
  pub synchronize-downgrade_iff :
      (rt : ConfigRuntime W) (cfg : VersionedConfig) (supported : ℕ) (w : W)
      → ((synchronize rt cfg supported w).result ≡ ok downgrade_required)
        ↔ ((Catalog.contains rt.catalog supported ≡ true) × (supported < cfg.version))
  unfolding synchronize
  synchronize-downgrade_iff rt cfg supported w = (λ h. ground arith, λ h. ground arith)

  migrate-version :
      (cat : VersionCatalog W) (reg : MigrationRegistry W) (target : ℕ) (c : VersionedConfig)
      (w : W) (out : Walked W)
      → Ends cat reg target c w out
      → out.result ≡ ok tt
      → out.config.version ≡ target
  migrate-version cat reg target c w out (reached r t s) h = t
  migrate-version cat reg target c w out (stopped c₁ w₁ n e s lt en ef fails) h =
      absurd (ground arith)

  commit-version :
      (cfg : VersionedConfig) (v supported : ℕ) (migrated : Bool)
      (repaired : Result Bool × ConfigModel × W)
      → v ≡ supported
      → (migrated ≡ false → cfg.version ≡ supported)
      → (commit cfg v migrated repaired).result ≡ ok in_sync
      → (commit cfg v migrated repaired).config.version ≡ supported
  commit-version cfg v supported migrated repaired e same h = ground arith

  after_migration-version :
      (rt : ConfigRuntime W) (cfg : VersionedConfig) (supported : ℕ) (out : Walked W)
      (r : Result (Unit {0}))
      → (r ≡ ok tt → out.config.version ≡ supported)
      → (after_migration rt cfg supported out r).result ≡ ok in_sync
      → (after_migration rt cfg supported out r).config.version ≡ supported
  unfolding repair_and_commit
  after_migration-version rt cfg supported out (ok _) there h =
      commit-version cfg out.config.version supported true
        (repair rt out.config.model supported out.world) (there refl) (λ e. cc) h
  after_migration-version rt cfg supported out (err e) there h = cc
  after_migration-version rt cfg supported out fault there h = cc
  after_migration-version rt cfg supported out out_of_fuel there h = cc

  synchronize_as-version :
      (rt : ConfigRuntime W) (cfg : VersionedConfig) (supported : ℕ) (w : W)
      → Ascending rt.catalog.entries
      → Registry.validate rt.registry rt.catalog ≡ ok tt
      → Catalog.contains rt.catalog supported ≡ true
      → (status : SyncStatus) → (status ≡ upgrade_required → cfg.version < supported)
      → (status ≡ in_sync → cfg.version ≡ supported)
      → (synchronize_as rt cfg supported w status).result ≡ ok in_sync
      → (synchronize_as rt cfg supported w status).config.version ≡ supported
  unfolding repair_and_commit clone
  synchronize_as-version rt cfg supported w s valid there downgrade_required up same h =
      absurd (ground arith)
  synchronize_as-version rt cfg supported w s valid there in_sync up same h =
      commit-version cfg cfg.version supported false (repair rt cfg.model supported w) (same refl)
        (λ _. same refl) h
  synchronize_as-version rt cfg supported w s valid there upgrade_required up same h =
      elim (Bool-cases (Catalog.contains rt.catalog cfg.version)) [
        | inl here ↦
            let out = Engine.migrate rt.catalog rt.registry cfg supported w in
            let end : Ends rt.catalog rt.registry supported cfg w out =
              migrate-Ends rt.catalog rt.registry s supported cfg w valid there here
                (omega (arith, up refl)) in
            rw here (
              after_migration-version rt cfg supported out out.result
                (migrate-version rt.catalog rt.registry supported cfg w out end) (rw here at h))
        | inr away ↦ absurd (ground arith)
      ]

  -- With a validated registry, for a catalog whose entries ascend, a synchronisation that succeeds
  -- leaves the configuration at the supported version.
  pub synchronize-version :
      (rt : ConfigRuntime W) (cfg : VersionedConfig) (supported : ℕ) (w : W)
      → Ascending rt.catalog.entries
      → Registry.validate rt.registry rt.catalog ≡ ok tt
      → (synchronize rt cfg supported w).result ≡ ok in_sync
      → (synchronize rt cfg supported w).config.version ≡ supported
  unfolding synchronize
  synchronize-version rt cfg supported w s valid h =
      elim (Bool-cases (Catalog.contains rt.catalog supported)) [
        | inl there ↦ rw there (
            synchronize_as-version rt cfg supported w s valid there (inspect cfg supported).status
              (λ e. ground arith) (λ e. ground arith) (rw there at h))
        | inr away ↦ absurd (ground arith)
      ]
