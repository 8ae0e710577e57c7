-- ===== src/Engine/Walk.antt =====
-- What MigrationEngine::migrate does with a validated registry: the steps that it takes, where it
-- stops, and that it ends.
use config_manager.Common.{
  ℕ, zero, suc, ◌-◌, ◌<◌, ◌≤◌, ◌≡◌, ◌≢◌, inl, inr, refl, true, false, ltb, Bool-cases, arith, ok,
  err, migration_failed, ltb→lt, ltb-false,
}
use config_manager.Model.{ConfigModel}
use config_manager.Catalog
use config_manager.Catalog.{
  Called, returned, threw_exception, threw_other, VersionCatalog, VersionedConfig,
}
use config_manager.Catalog.Order.{Ascending, next, last, After-listed}
use config_manager.Catalog.Laws.{next_version_iff, contains-listed}
use config_manager.Registry
use config_manager.Registry.{MigrationEdge, MigrationRegistry, Applied, applied, rejected}
use config_manager.Registry.Laws.{find-validated}
use config_manager.Engine.{Walked, with_model, settle, walk, rounds, migrate}

module _ {W : Type 0} where
  -- Completed migration steps, each from a registered version to the next by its registered edge.
  pub data Steps (cat : VersionCatalog W) (reg : MigrationRegistry W) (c' : VersionedConfig)
      (w' : W) : VersionedConfig → W → Type 0 where
    done : Steps cat reg c' w' c' w'
    step :
        {c : VersionedConfig} {w : W} (n : ℕ) (e : MigrationEdge W) (m : ConfigModel) (v : W)
        → Catalog.next_version cat c.version ≡ ok n
        → Registry.find reg c.version n ≡ ok e
        → e.apply c.model c.version n w ≡ (returned applied, m, v)
        → Steps cat reg c' w' (record { version = n; model = m }) v
        → Steps cat reg c' w' c w

  -- The call of a migration fails, and what it leaves.
  pub record Fails (out : Walked W) (c : VersionedConfig) (call : Called Applied × ConfigModel × W)
      : Type 0 where
    pub refused : call.0 ≢ returned applied
    pub config : out.config ≡ with_model c call.1
    pub world : out.world ≡ call.2
    pub result : out.result ≡ err migration_failed

  -- How a run from `c` ends: at the target, or at the first migration that fails.
  pub data Ends (cat : VersionCatalog W) (reg : MigrationRegistry W) (target : ℕ)
      (c : VersionedConfig) (w : W) (out : Walked W) : Type 0 where
    reached :
        out.result ≡ ok tt
        → out.config.version ≡ target
        → Steps cat reg out.config out.world c w
        → Ends cat reg target c w out
    stopped :
        (c₁ : VersionedConfig) (w₁ : W) (n : ℕ) (e : MigrationEdge W)
        → Steps cat reg c₁ w₁ c w
        → c₁.version < target
        → Catalog.next_version cat c₁.version ≡ ok n
        → Registry.find reg c₁.version n ≡ ok e
        → Fails out c₁ (e.apply c₁.model c₁.version n w₁)
        → Ends cat reg target c w out

  Ends-step :
      (cat : VersionCatalog W) (reg : MigrationRegistry W) (target : ℕ) {c : VersionedConfig}
      {w : W} {out : Walked W} (n : ℕ) (e : MigrationEdge W) (m : ConfigModel) (v : W)
      → Catalog.next_version cat c.version ≡ ok n
      → Registry.find reg c.version n ≡ ok e
      → e.apply c.model c.version n w ≡ (returned applied, m, v)
      → Ends cat reg target (record { version = n; model = m }) v out
      → Ends cat reg target c w out
  Ends-step cat reg target n e m v en ef ea (reached r t s) = reached r t (step n e m v en ef ea s)
  Ends-step cat reg target n e m v en ef ea (stopped c₁ w₁ n₁ e₁ s lt en₁ ef₁ fails) =
      stopped c₁ w₁ n₁ e₁ (step n e m v en ef ea s) lt en₁ ef₁ fails

  settle-Ends :
      (cat : VersionCatalog W) (reg : MigrationRegistry W) (target : ℕ) (c : VersionedConfig)
      (w : W) (n : ℕ) (e : MigrationEdge W) (continue : VersionedConfig → W → Walked W)
      → c.version < target
      → Catalog.next_version cat c.version ≡ ok n
      → Registry.find reg c.version n ≡ ok e
      → ((m : ConfigModel) (v : W)
          → Ends cat reg target
              (record { version = n; model = m })
              v
              (continue (record { version = n; model = m }) v))
      → (call : Called Applied × ConfigModel × W) → e.apply c.model c.version n w ≡ call
      → Ends cat reg target c w (settle continue c n call)
  settle-Ends cat reg target c w n e continue lt en ef go (returned applied, m, v) ea =
      Ends-step cat reg target n e m v en ef ea (go m v)
  settle-Ends cat reg target c w n e continue lt en ef go (returned (rejected code), m, v) ea =
      stopped c w n e done lt en ef
        (rw ea (record { refused = λ h. cc; config = refl; world = refl; result = refl }))
  settle-Ends cat reg target c w n e continue lt en ef go (threw_exception, m, v) ea =
      stopped c w n e done lt en ef
        (rw ea (record { refused = λ h. cc; config = refl; world = refl; result = refl }))
  settle-Ends cat reg target c w n e continue lt en ef go (threw_other, m, v) ea =
      stopped c w n e done lt en ef
        (rw ea (record { refused = λ h. cc; config = refl; world = refl; result = refl }))

module _ {W : Type 0} (cat : VersionCatalog W) (reg : MigrationRegistry W)
    (s : Ascending cat.entries) where
  -- Below a registered version there is a next one, and it is not past that version.
  next-below :
      (v target : ℕ)
      → Catalog.contains cat v ≡ true
      → Catalog.contains cat target ≡ true
      → v < target
      → (n : ℕ) × (Catalog.next_version cat v ≡ ok n)
        × (v < n)
        × (n ≤ target)
        × (Catalog.contains cat n ≡ true)
  next-below v target here there lt =
      elim (After-listed v cat.entries s (rw (contains-listed cat v s) at here)) [
        | next n e (ln, vn, between) ↦ (
          n,
          (next_version_iff cat v n s).1 (here, (ln, vn, between)),
          vn,
          omega (arith, between target (rw (contains-listed cat target s) at there)),
          rw (contains-listed cat n s) ln,
        )
        | last e top ↦
            absurd (omega (arith, top target (rw (contains-listed cat target s) at there)))
      ]

  walk-Ends :
      (target : ℕ)
      → Registry.validate reg cat ≡ ok tt
      → Catalog.contains cat target ≡ true
      → (fuel : ℕ) (c : VersionedConfig) (w : W) → Catalog.contains cat c.version ≡ true
      → c.version ≤ target
      → target - c.version < fuel
      → Ends cat reg target c w (walk cat reg target fuel c w)
  unfolding walk
  walk-Ends target valid there zero c w here le room = absurd (omega arith)
  walk-Ends target valid there (suc fuel) c w here le room =
      elim (Bool-cases (ltb c.version target)) [
        | inl lt ↦
            let (n, en, vn, nt, cn) = next-below c.version target here there (ltb→lt _ _ lt) in
            let (e, ef, _, _) = find-validated reg cat c.version n s valid en in
            rw (lt, en, ef)
              (settle-Ends cat reg target c w n e (λ c' w'. walk cat reg target fuel c' w')
                (ltb→lt _ _ lt) en ef
                (λ m v.
                  walk-Ends target valid there fuel (record { version = n; model = m }) v cn nt
                    (omega (arith, ltb→lt _ _ lt)))
                (e.apply c.model c.version n w) refl)
        | inr ge ↦ rw ge (reached refl (omega (arith, ltb-false _ _ ge)) done)
      ]

  -- With a validated registry, for a catalog whose entries ascend, a migration from a registered
  -- version to a registered version at or above it ends, never for want of a next version, an edge or
  -- fuel: it has completed a chain of registered steps, each from a version to the next, and either
  -- stands at the target with success, or the next step's call failed, the version is the last one
  -- completed, the model is what that call left, and the error is MigrationFailed.
  pub migrate-Ends :
      (target : ℕ) (c : VersionedConfig) (w : W)
      → Registry.validate reg cat ≡ ok tt
      → Catalog.contains cat target ≡ true
      → Catalog.contains cat c.version ≡ true
      → c.version ≤ target
      → Ends cat reg target c w (migrate cat reg c target w)
  unfolding migrate
  migrate-Ends target c w valid there here le =
      let up : ltb target c.version ≡ false = ground arith in
      rw (there, up) (walk-Ends target valid there (rounds c target) c w here le (omega arith))
